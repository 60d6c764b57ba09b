-- ===== src/Consensus/Startup.antt =====
-- How the driver comes to its startup state: the loop of the registration, and the wait for the
-- activation.
use sawtooth_sdk_python.Base.{
  ℕ, zero, suc, ◌<◌, ◌≡◌, ◌≢◌, refl, inl, inr, Bool, true, false, Option, none, some, Option-cases,
  Bool-cases, ==_iff, List, [], ◌∷◌, ◌++◌, arith, if◌then◌else◌, ◌==◌, All,
}
use sawtooth_sdk_python.Base.Text.{Bytes}
use sawtooth_sdk_python.Base.Exec.{Result, ok, raised, receive_error}
use sawtooth_sdk_python.Consensus.Service.{Block}
use sawtooth_sdk_python.Processor.Link.{Envelope}
use sawtooth_sdk_python.Consensus.Driver.{
  StartupState, RegisterReply, Notices, Channel, Arrival, timed_out, cancelled, reconnect_event,
  stopped, arrived, startup_of, on_reply, register_loop, register, wait_until_active,
}

module _ {W : Type 0} (channel : Channel W) where
  -- The validator answers so many requests to register with NOT_READY.
  pub data NotReady : ℕ → W → W → Type 0 where
    at_once : {w : W} → NotReady zero w w
    retried :
        {k : ℕ} {w w1 w2 : W} (reply : RegisterReply)
        → channel.register w ≡ (ok reply, w1)
        → (reply.status == 4) ≡ true
        → NotReady k w1 w2
        → NotReady (suc k) w w2

  loop_settles :
      (k fuel : ℕ) (w w1 w2 : W) (reply : RegisterReply)
      → NotReady k w w1
      → channel.register w1 ≡ (ok reply, w2)
      → (reply.status == 4) ≡ false
      → k < fuel
      → register_loop channel fuel w
        ≡ some (
          if reply.status == 1
              then ok (startup_of channel reply)
              else raised (receive_error reply.status),
          w2,
        )
  unfolding register_loop on_reply
  loop_settles k zero w w1 w2 reply n e s lt = absurd (omega arith)
  loop_settles zero (suc fuel) w w1 w2 reply at_once e s lt = rw e (rw s (ground arith))
  loop_settles (suc k) (suc fuel) w w1 w2 reply (retried {w1 = w3} again f t n) e s lt =
      rw f (rw t (loop_settles k fuel w3 w1 w2 reply n e s (omega arith)))

  -- What the reply of a validator that is ready makes of the registration: status OK gives a startup
  -- state where the reply has both fields, and None where it lacks one.
  pub data Registered (reply : RegisterReply) : Result (Option StartupState) → Type 0 where
    with_state :
        (head : Block) (info : Bytes)
        → reply.status ≡ 1
        → reply.chain_head ≡ some head
        → reply.local_peer_info ≡ some info
        → Registered reply
            (ok (some (record { chain_head = head; peers = reply.peers; local_peer_info = info })))
    no_head : reply.status ≡ 1 → reply.chain_head ≡ none → Registered reply (ok none)
    no_info : reply.status ≡ 1 → reply.local_peer_info ≡ none → Registered reply (ok none)
    refused : reply.status ≢ 1 → Registered reply (raised (receive_error reply.status))

  startup_of-no_head :
      (reply : RegisterReply) → reply.chain_head ≡ none → startup_of channel reply ≡ none
  unfolding startup_of
  startup_of-no_head reply h = rw h refl

  startup_of-no_info :
      (reply : RegisterReply) → reply.local_peer_info ≡ none → startup_of channel reply ≡ none
  unfolding startup_of
  startup_of-no_info reply i = elim (Option-cases reply.chain_head) [
    | inl h ↦ rw h refl
    | inr (head, h) ↦ rw (h, i) refl
  ]

  startup_of-both :
      (reply : RegisterReply) (head : Block) (info : Bytes)
      → reply.chain_head ≡ some head
      → reply.local_peer_info ≡ some info
      → startup_of channel reply
        ≡ some (record { chain_head = head; peers = reply.peers; local_peer_info = info })
  unfolding startup_of
  startup_of-both reply head info h i = rw (h, i) refl

  startup_of-Registered :
      (reply : RegisterReply) → reply.status ≡ 1 → Registered reply (ok (startup_of channel reply))
  startup_of-Registered reply e = elim (Option-cases reply.chain_head) [
    | inl h ↦ rw (startup_of-no_head reply h) (no_head e h)
    | inr (head, h) ↦ elim (Option-cases reply.local_peer_info) [
      | inl i ↦ rw (startup_of-no_info reply i) (no_info e i)
      | inr (info, i) ↦ rw (startup_of-both reply head info h i) (with_state head info e h i)
    ]
  ]

  reply-Registered :
      (reply : RegisterReply)
      → Registered reply (
          if reply.status == 1
          then ok (startup_of channel reply)
          else raised (receive_error reply.status))
  reply-Registered reply = elim (Bool-cases (reply.status == 1)) [
    | inl e ↦ rw e (startup_of-Registered reply ((==_iff reply.status 1).0 e))
    | inr e ↦ rw e (refused (λ same. let t = (==_iff reply.status 1).1 same in cc))
  ]

  -- The registration ends as soon as the validator is ready: after any number of replies NOT_READY,
  -- each of which is followed by another request, the next reply decides. OK gives the startup
  -- state, or None unless the reply has both the head of the chain and the info of the peer; any
  -- other status gives ReceiveError. One round more than there are replies NOT_READY is enough.
  pub register-settles :
      (k fuel : ℕ) (w w0 w1 w2 : W) (reply : RegisterReply)
      → channel.wait_for_ready w ≡ (ok tt, w0)
      → NotReady k w0 w1
      → channel.register w1 ≡ (ok reply, w2)
      → (reply.status == 4) ≡ false
      → k < fuel
      → (r : Result (Option StartupState)) × (register channel fuel w ≡ some (r, w2))
        × Registered reply r
  unfolding register
  register-settles k fuel w w0 w1 w2 reply ready n e s lt = (
    if reply.status == 1
        then ok (startup_of channel reply)
        else raised (receive_error reply.status),
    rw ready (loop_settles k fuel w0 w1 w2 reply n e s lt),
    reply-Registered reply,
  )

  -- An arrival that the wait passes over: a timeout, or a message of another type.
  unfoldable pub is_passed : Arrival → Bool
  is_passed timed_out = true
  is_passed stopped = true
  is_passed cancelled = false
  is_passed reconnect_event = false
  is_passed (arrived msg) = if msg.message_type == 907 then false else true

  -- Messages of other types and timeouts before the activation are passed over, without an
  -- acknowledgement; the first activation ends the wait, and if it can be read and the
  -- acknowledgement is sent, it is acknowledged once and its startup state is returned, and what
  -- arrives later is kept.
  pub wait_until_active-first :
      (n : Notices) (before after : List Arrival) (msg : Envelope) (startup : StartupState)
      (w w1 : W)
      → All (λ a. is_passed a ≡ true) before
      → (msg.message_type == 907) ≡ true
      → n.parse_activated msg.content ≡ ok startup
      → channel.ack msg.correlation_id w ≡ (ok tt, w1)
      → wait_until_active channel n (before ++ (arrived msg ∷ after)) w
        ≡ some (ok startup, w1, after)
  unfolding wait_until_active is_passed
  wait_until_active-first n [] after msg startup w w1 h t p a = rw (t, p, a) refl
  wait_until_active-first n (timed_out ∷ before) after msg startup w w1 h t p a =
      wait_until_active-first n before after msg startup w w1 h.1 t p a
  wait_until_active-first n (stopped ∷ before) after msg startup w w1 h t p a =
      wait_until_active-first n before after msg startup w w1 h.1 t p a
  wait_until_active-first n (cancelled ∷ before) after msg startup w w1 h t p a =
      absurd (let e = h.0 in cc)
  wait_until_active-first n (reconnect_event ∷ before) after msg startup w w1 h t p a =
      absurd (let e = h.0 in cc)
  wait_until_active-first n (arrived other ∷ before) after msg startup w w1 h t p a =
      let ih = wait_until_active-first n before after msg startup w w1 h.1 t p a in
      let e : (other.message_type == 907) ≡ false = let e = h.0 in ground arith in rw e ih
