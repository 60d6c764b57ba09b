-- ===== src/Xo/State.antt =====
-- examples/xo_python/sawtooth_xo/processor/xo_state.py: `XoState`, the games in the validator's
-- state behind a cache of addresses.
use sawtooth_sdk_python.Base.{ℕ, not, Option, none, some, List, [], ◌∷◌, ◌++◌, if◌then◌else◌, take}
use sawtooth_sdk_python.Base.Text.{Text, Bytes, codes, is_empty}
use sawtooth_sdk_python.Base.Dict.{Dict, lookup, member, insert, erase}
use sawtooth_sdk_python.Base.Exec.{Exec, Result, ok, pure, lift, raise_if, ◌>>=◌, ◌>>◌, key_error}
use sawtooth_sdk_python.Base.Platform.{Platform}
use sawtooth_sdk_python.Processor.Context.{Context, Entry, get_state, set_state, delete_state}
use sawtooth_sdk_python.Xo.Game.{Game, deserialize, serialize}

-- `XoState.TIMEOUT`
abbrev pub timeout : Option ℕ
timeout = some 3

-- XO_NAMESPACE
unfoldable pub xo_namespace : Platform → Text
xo_namespace platform = take 6 (platform.sha512_hexdigest (platform.encode (codes "xo")))

-- `_make_xo_address`
unfoldable pub make_xo_address : Platform → Text → Text
unfolding xo_namespace
make_xo_address platform name =
    xo_namespace platform ++ take 64 (platform.sha512_hexdigest (platform.encode name))

-- What a transaction changes: the validator behind the context, and `_address_cache`.
pub record Run (W : Type 0) : Type 0 where
  pub world : W
  pub address_cache : Dict (Option Bytes)

-- The games under a cached address: `None` and empty bytes stand for no game.
unfoldable pub cached_games : Platform → Option Bytes → Result (Dict Game)
cached_games platform none = ok []
cached_games platform (some bytes) = if is_empty bytes then ok [] else deserialize platform bytes

module _ {W : Type 0} where
  -- A call of a method of the context.
  abbrev pub on_context : {A : Type 0} → Exec W A → Exec (Run W) A
  on_context m s = let (r, w) = m s.world in (r, record s { world = w })

  -- `self._address_cache[address] = bytes`
  abbrev pub cache : Text → Option Bytes → Exec (Run W) (Unit {0})
  cache address bytes s = (ok tt, record s { address_cache = insert address bytes s.address_cache })

  -- The first entry of the validator's answer goes into the cache, and so does its absence.
  unfoldable pub fetched_games : Platform → Text → List Entry → Exec (Run W) (Dict Game)
  fetched_games platform address [] = do cache address none; pure []
  fetched_games platform address (entry ∷ entries) = do
    cache address (some entry.bytes)
    lift (deserialize platform entry.bytes)

  module _ (platform : Platform) (context : Context W) where
    -- `_load_games`
    unfoldable pub load_games : Text → Exec (Run W) (Dict Game)
    unfolding cached_games fetched_games
    load_games game_name s = elim (lookup (make_xo_address platform game_name) s.address_cache) [
      | some cached ↦ (cached_games platform cached, s)
      | none ↦
          (do
            entries ←
                on_context (get_state context (make_xo_address platform game_name ∷ []) timeout)
            fetched_games platform (make_xo_address platform game_name) entries)
            s
    ]

    -- `_store_game`
    unfoldable pub store_game : Text → Dict Game → Exec (Run W) (Unit {0})
    store_game game_name games = do
      cache (make_xo_address platform game_name) (some (serialize platform games))
      on_context (
          set_state context ((make_xo_address platform game_name, serialize platform games) ∷ [])
            timeout)
      pure tt

    -- `_delete_game`
    unfoldable pub delete_address : Text → Exec (Run W) (Unit {0})
    delete_address game_name = do
      on_context (delete_state context (make_xo_address platform game_name ∷ []) timeout)
      cache (make_xo_address platform game_name) none

    unfoldable pub get_game : Text → Exec (Run W) (Option Game)
    get_game game_name = do games ← load_games game_name; pure (lookup game_name games)

    unfoldable pub set_game : Text → Game → Exec (Run W) (Unit {0})
    set_game game_name game = do
      games ← load_games game_name
      store_game game_name (insert game_name game games)

    -- What is left of the dict after the `del` is stored, unless nothing is left.
    unfoldable pub store_or_delete : Text → Dict Game → Exec (Run W) (Unit {0})
    store_or_delete game_name games =
        if is_empty games then delete_address game_name else store_game game_name games

    unfoldable pub delete_game : Text → Exec (Run W) (Unit {0})
    unfolding store_or_delete
    delete_game game_name = do
      games ← load_games game_name
      raise_if (not (member game_name games)) key_error
      store_or_delete game_name (erase game_name games)
