-- ===== src/Processor/Core/Shutdown.antt =====
-- How `start` ends: the loop after an interrupt, and the case in which it does not end.
use sawtooth_sdk_python.Base.{
  ℕ, zero, suc, ◌≡◌, ◌+◌, ◌<◌, refl, true, none, some, List, [], ◌∷◌, arith, length, ◌⊎◌, inl, inr,
}
use sawtooth_sdk_python.Base.Exec.{
  Exc, Result, ok, raised, validator_version_error, keyboard_interrupt,
}
use sawtooth_sdk_python.Processor.Link.{Link, Protobuf}
use sawtooth_sdk_python.Processor.Core.{Processor}
use sawtooth_sdk_python.Processor.Core.Register.{register, unregister}
use sawtooth_sdk_python.Processor.Core.Loop.{
  Received, timed_out, process_future, drain, shut_down, leave, start, end_shutdown,
}

module _ {W : Type 0} (link : Link W) (protobuf : Protobuf) (p : Processor W) where
  drain_timed_out :
      (fuel : ℕ) (w : W)
      → (out : Result (Unit {0}) × W) × (drain link protobuf p (suc fuel) (some timed_out) [] w
          ≡ some out)
  unfolding drain process_future
  drain_timed_out fuel w = ((ok tt, w), refl)

  -- After an interrupt, the loop that processes what still arrives ends: once a future has been
  -- received, fuel for the messages to come and two rounds more gives a result.
  pub drain_total :
      (fuel : ℕ) (r : Received) (rest : List Received) (w : W)
      → length rest + 1 < fuel
      → (out : Result (Unit {0}) × W) × (drain link protobuf p fuel (some r) rest w ≡ some out)
  unfolding drain
  drain_total zero r rest w h = elim h [ ]
  drain_total (suc zero) r rest w h = absurd (omega arith)
  drain_total (suc (suc fuel)) r [] w h = last (process_future link protobuf p true r w) refl
    where
      last :
          (out : Result (Unit {0}) × W)
          → process_future link protobuf p true r w ≡ out
          → (o : Result (Unit {0}) × W) × (drain link protobuf p (suc (suc fuel)) (some r) [] w
              ≡ some o)
      last (ok u, w') e = let (o, t) = drain_timed_out fuel w' in (o, rw (e, drain) t)
      last (raised x, w') e = (end_shutdown link protobuf p (raised x, w'), rw (e, drain) refl)
  drain_total (suc (suc fuel)) r (next ∷ rest) w h =
      more (drain_total (suc fuel) next rest) (process_future link protobuf p true r w) refl
    where
      more :
          ((w' : W)
            → length rest + 1 < suc fuel
            → (o : Result (Unit {0}) × W) × (drain link protobuf p (suc fuel) (some next) rest w'
                ≡ some o))
          → (out : Result (Unit {0}) × W) → process_future link protobuf p true r w ≡ out
          → (o : Result (Unit {0}) × W) × (drain link protobuf p
                (suc (suc fuel))
                (some r)
                (next ∷ rest)
                w
              ≡ some o)
      more ih (ok u, w') e = let (o, t) = ih w' (omega arith) in (o, rw (e, drain) t)
      more ih (raised x, w') e = (end_shutdown link protobuf p (raised x, w'), rw (e, drain) refl)

  drain-none :
      (fuel : ℕ) (rest : List Received) (w : W) → drain link protobuf p fuel none rest w ≡ none
  unfolding drain
  drain-none zero rest w = refl
  drain-none (suc fuel) rest w = drain-none fuel rest w

  -- If the registration itself is what is left by ValidatorVersionError or by an interrupt, and the
  -- validator answers the request to unregister, `start` never ends: no future has been received,
  -- and the loop that waits for one to time out does nothing, however long it runs.
  pub start_spins :
      (fuel : ℕ) (incoming : List Received) (e : Exc) (w : W) {w1 w2 : W}
      → (e ≡ validator_version_error) ⊎ (e ≡ keyboard_interrupt)
      → register link p w ≡ (raised e, w1)
      → unregister link w1 ≡ (ok tt, w2)
      → start link protobuf p fuel incoming w ≡ none
  unfolding start leave shut_down
  start_spins fuel incoming e w {w2 = w2} (inl version) h u =
      rw (h, start) (rw version (rw (u, shut_down) (drain-none fuel incoming w2)))
  start_spins fuel incoming e w {w2 = w2} (inr interrupt) h u =
      rw (h, start) (rw interrupt (rw (u, shut_down) (drain-none fuel incoming w2)))
