-- ===== src/Xo/History.antt =====
-- Any sequence of transactions of xo, accepted or not, one after the other.
use sawtooth_sdk_python.Base.{◌≡◌, refl, sym, false, some, List, [], ◌∷◌, subst, All}
use sawtooth_sdk_python.Base.Text.{Text, is_empty}
use sawtooth_sdk_python.Base.Dict.{lookup}
use sawtooth_sdk_python.Base.Exec.{Result, ok, raised, continue_with}
use sawtooth_sdk_python.Base.Platform.{Platform}
use sawtooth_sdk_python.Processor.Context.{Context}
use sawtooth_sdk_python.Processor.Validator.{Validator}
use sawtooth_sdk_python.Xo.Game.{Game}
use sawtooth_sdk_python.Xo.Game.RoundTrip.{IsPlain}
use sawtooth_sdk_python.Xo.Good.{IsGood}
use sawtooth_sdk_python.Xo.Handler.{Transaction, dispatch, apply}
use sawtooth_sdk_python.Xo.Ledger.{Change, Effect, changed, refused, dispatch-Effect, IsGood-found}
use sawtooth_sdk_python.Xo.Methods.{IsLedger, IsSound, found}
use sawtooth_sdk_python.Xo.Payload.{XoPayload, from_bytes}
use sawtooth_sdk_python.Xo.Requests.{Accepted, from_bytes-Accepted}
use sawtooth_sdk_python.Xo.State.{Run}

-- A public key in hexadecimal is one.
pub record IsKey (signer : Text) : Type 0 where
  pub named : is_empty signer ≡ false
  pub plain : IsPlain signer

module _ {W : Type 0} (platform : Platform) (context : Context W)
    (v : Validator context.stream) where
  abbrev begin : W → Run W
  begin w = record { world = w; address_cache = [] }

  begin-IsSound : (w : W) → IsLedger platform context v w → IsSound platform context v (begin w)
  unfolding lookup
  begin-IsSound w l = record { ledger = l; agrees = λ a c h. absurd (cc) }

  Effect-IsLedger :
      {name : Text} {w : W} {c : Change} {out : Result (Unit {0}) × Run W}
      → IsLedger platform context v w
      → Effect platform context v name w c out
      → IsLedger platform context v out.1.world
  Effect-IsLedger l (changed o s' u) = u.sound.ledger
  Effect-IsLedger l (refused e s' same) = subst (IsLedger platform context v) (sym same) l

  apply-IsLedger :
      (t : Transaction) (w : W)
      → IsKey t.signer_public_key
      → IsLedger platform context v w
      → IsLedger platform context v (apply platform context t w).1
  unfolding apply
  apply-IsLedger t w key l =
      read (from_bytes platform t.payload) (λ p. from_bytes-Accepted platform t.payload {p = p})
    where
      read :
          (r : Result XoPayload)
          → ((p : XoPayload) → r ≡ ok p → Accepted p)
          → IsLedger platform context v
              (continue_with r (begin w) (dispatch platform context t.signer_public_key)).1.world
      read (raised e) accepted = l
      read (ok p) accepted =
          let a = accepted p refl in
          rw a.same (
            Effect-IsLedger l (
              dispatch-Effect platform context v t.signer_public_key a.action (begin w) key.named
                key.plain a.plain a.on_board (begin-IsSound w l)))

  -- The world that a sequence of transactions leads to; an exception ends its own transaction.
  unfoldable pub after : List Transaction → W → W
  after [] w = w
  after (t ∷ ts) w = after ts (apply platform context t w).1

  after-IsLedger :
      (ts : List Transaction) (w : W)
      → All (λ (t : Transaction). IsKey t.signer_public_key) ts
      → IsLedger platform context v w
      → IsLedger platform context v (after ts w)
  unfolding after
  after-IsLedger [] w keys l = l
  after-IsLedger (t ∷ ts) w keys l =
      after-IsLedger ts (apply platform context t w).1 keys.1 (apply-IsLedger t w keys.0 l)

  -- Whatever payloads are applied to a state that the handler has left, by signers whose keys are not
  -- empty and hold no separator: every game that the state then holds under a name carries this name,
  -- its board, marks, lines and state agree, and so do its seats.
  pub found-IsGood :
      (ts : List Transaction) (w : W) (name : Text) (g : Game)
      → All (λ (t : Transaction). IsKey t.signer_public_key) ts
      → IsLedger platform context v w
      → found platform context v (after ts w) name ≡ some g
      → IsGood (name, g)
  found-IsGood ts w name g keys l h =
      IsGood-found platform context v name g (begin (after ts w))
        (begin-IsSound (after ts w) (after-IsLedger ts w keys l)) h
