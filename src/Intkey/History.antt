-- ===== src/Intkey/History.antt =====
-- Any sequence of payloads, valid or not, run by the handler of intkey one after the other.
use sawtooth_sdk_python.Base.{ℕ, ◌≡◌, refl, Option, List, [], ◌∷◌}
use sawtooth_sdk_python.Base.Text.{Text, Bytes}
use sawtooth_sdk_python.Base.Exec.{Result, ok, raised, continue_with}
use sawtooth_sdk_python.Base.Platform.{Platform}
use sawtooth_sdk_python.Processor.Context.{Context}
use sawtooth_sdk_python.Processor.Validator.{Validator}
use sawtooth_sdk_python.Intkey.Payload.{Cbor, Request, unpack_transaction}
use sawtooth_sdk_python.Intkey.Handler.{run_request, apply}
use sawtooth_sdk_python.Intkey.Unpack.{IsValid, verb-IsValid, IsAmount-IsValid, unpack-IsValid}
use sawtooth_sdk_python.Intkey.Ledger.{IsLedger, Effect, stored, unchanged, run_request-Effect}

module _ {W : Type 0} (platform : Platform) (cbor : Cbor) (context : Context W)
    (v : Validator context.stream) where
  Effect-IsLedger :
      {name : Text} {w : W} {o : Option ℕ} {out : Result (Unit {0}) × W}
      → IsLedger platform cbor context v w
      → Effect platform cbor context v name w o out
      → IsLedger platform cbor context v out.1
  Effect-IsLedger l (stored r w' l' h) = l'
  Effect-IsLedger l (unchanged m) = l

  run_valid :
      (r : Request) (w : W)
      → IsValid r
      → IsLedger platform cbor context v w
      → IsLedger platform cbor context v
          (run_request platform cbor context r.verb r.name r.value w).1
  run_valid r w valid l =
      let (verb, ev, is) = verb-IsValid r valid in
      let (name, en, short) = valid.name in
      let (n, a) = IsAmount-IsValid r valid in
      rw (ev, en)
        (Effect-IsLedger l
          (run_request-Effect platform cbor context v verb name r.value n w is a l))

  apply-IsLedger :
      (payload : Bytes) (w : W)
      → IsLedger platform cbor context v w
      → IsLedger platform cbor context v (apply platform cbor context payload w).1
  unfolding apply
  apply-IsLedger payload w l =
      unpacked (unpack_transaction cbor payload) (λ r h. (unpack-IsValid cbor payload {r = r} h).1)
    where
      unpacked :
          (u : Result Request)
          → ((r : Request) → u ≡ ok r → IsValid r)
          → IsLedger platform cbor context v
              (continue_with u w (λ r. run_request platform cbor context r.verb r.name r.value)).1
      unpacked (ok r) valid = run_valid r w (valid r refl) l
      unpacked (raised e) valid = l

  -- The worlds that a sequence of transactions leads to; an exception ends its own transaction.
  unfoldable pub after : List Bytes → W → W
  after [] w = w
  after (payload ∷ payloads) w = after payloads (apply platform cbor context payload w).1

  pub after-IsLedger :
      (payloads : List Bytes) (w : W)
      → IsLedger platform cbor context v w
      → IsLedger platform cbor context v (after payloads w)
  unfolding after
  after-IsLedger [] w l = l
  after-IsLedger (payload ∷ payloads) w l =
      after-IsLedger payloads (apply platform cbor context payload w).1 (apply-IsLedger payload w l)
