-- ===== src/Redis/Expiring.antt =====
-- Redis with the passing of time: what its documentation says of a key that is set to expire.
use longshot.Common.{
  ℕ, ◌+◌, ◌*◌, ◌≤◌, ◌≡◌, Text, text_eq, Bool, false, none, some, ltb, if◌then◌else◌,
}
use longshot.Redis.{Redis, Command, incr, rpush, expire, set, set_nx, publish}

-- Whether a command has to do with the string at a key.
abbrev pub touches : Command → Text → Bool
touches (incr key) k = text_eq key k
touches (rpush key v) k = text_eq key k
touches (expire key ex) k = text_eq key k
touches (set key v ex) k = text_eq key k
touches (set_nx key v ex) k = text_eq key k
touches (publish ch m) k = false

-- Times are in milliseconds. `view t s` is what a client sees at time `t` if no command comes in
-- between: the keys whose time is over are gone. `SET k v EX n` makes the key last `n` seconds.
pub record Expiring (r : Redis) : Type 1 where
  pub State : Type 0
  pub exec : Command → (now : ℕ) → State → State
  pub view : (now : ℕ) → State → r.State
  pub value-set :
      (k v : Text) (ex now t : ℕ) (s : State)
      → now ≤ t
      → r.value (view t (exec (set k v ex) now s)) k
        ≡ (if ltb t (now + 1000 * ex) then some v else none)
  pub value-other :
      (c : Command) (now t : ℕ) (s : State) (k : Text)
      → touches c k ≡ false
      → now ≤ t
      → r.value (view t (exec c now s)) k ≡ r.value (view t s) k
  -- `SET k v NX EX n` is a SET where nothing is at the key, and nothing where something is.
  pub value-set_nx-free :
      (k v : Text) (ex now t : ℕ) (s : State)
      → r.value (view now s) k ≡ none
      → now ≤ t
      → r.value (view t (exec (set_nx k v ex) now s)) k
        ≡ (if ltb t (now + 1000 * ex) then some v else none)
  pub value-set_nx-held :
      (k v w : Text) (ex now t : ℕ) (s : State)
      → r.value (view now s) k ≡ some w
      → now ≤ t
      → r.value (view t (exec (set_nx k v ex) now s)) k ≡ r.value (view t s) k
