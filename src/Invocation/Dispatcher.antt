-- ===== src/Invocation/Dispatcher.antt =====
-- invocation/dispatcher.go: a channel of 32 payloads for each id. A channel is the list of its
-- payloads, the oldest first. What a `select` with several ready cases takes is the environment's
-- choice, so `WaitFor` is a relation. Here Listen and Dispatch run from their test of the flag to
-- their end with no Close between; Concurrent cuts the calls where others, and Close, come between.
pub mod Delivery
pub mod Concurrent
use maos_core.Common.{
  ◌++◌, Bool, true, false, List, [], ◌∷◌, ℕ, Option, none, some, if◌then◌else◌, ltb, length, ◌≡◌,
}
use maos_core.Common.Decimal.{Text}
use maos_core.Common.TextEquality.{text_eq}

abbrev pub capacity : ℕ
capacity = 32

module _ (T : Type 0) where
  pub record Dispatcher : Type 0 where
    pub channels : Text → Option (List T)
    pub closed : Bool
    -- What the channels held when they were closed, for those who still wait on one.
    pub left : Text → Option (List T)

-- An error says that the dispatcher is closed.
pub data Answer (T : Type 0) : Type 0 where
  done : Answer T
  payload : T → Answer T
  timed_out : Answer T
  dispatcher_closed : Answer T

module _ {T : Type 0} where
  unfoldable pub put : Text → List T → (Text → Option (List T)) → Text → Option (List T)
  put id ch channels j = if text_eq j id then some ch else channels j

  -- The channel of the id, a new one if there is none.
  abbrev pub existing : Option (List T) → List T
  existing none = []
  existing (some ch) = ch

  unfoldable pub get_or_create_ch : Dispatcher T → Text → Dispatcher T × Option (List T)
  unfolding put
  get_or_create_ch d id =
      if d.closed
      then (d, none)
      else let ch = existing (d.channels id) in
        (record d { channels = put id ch d.channels }, some ch)

  abbrev pub listened : Dispatcher T × Option (List T) → Dispatcher T × Answer T
  listened (d, none) = (d, dispatcher_closed)
  listened (d, some ch) = (d, done)

  unfoldable pub listen : Dispatcher T → Text → Dispatcher T × Answer T
  unfolding get_or_create_ch
  listen d id = listened (get_or_create_ch d id)

  -- `case ch <- payload` if the buffer has room, else `default`.
  abbrev pub send : List T → T → List T
  send ch p = if ltb (length ch) capacity then ch ++ p ∷ [] else ch

  abbrev pub send_to : Dispatcher T → Text → T → Option (List T) → Dispatcher T
  send_to d id p none = d
  send_to d id p (some ch) = record d { channels = put id (send ch p) d.channels }

  unfoldable pub dispatch : Dispatcher T → Text → T → Dispatcher T × Answer T
  unfolding put
  dispatch d id p =
      if d.closed then (d, dispatcher_closed) else (send_to d id p (d.channels id), done)

  -- How a waiter that found or made its channel goes on, in the state that it finds then.
  pub data Wakes (d : Dispatcher T) (id : Text) : Dispatcher T → Answer T → Type 0 where
    receive :
        (p : T) (ch : List T)
        → d.closed ≡ false
        → d.channels id ≡ some (p ∷ ch)
        → Wakes d id (record d { channels = put id ch d.channels }) (payload p)
    receive_left :
        (p : T) (ch : List T)
        → d.closed ≡ true
        → d.left id ≡ some (p ∷ ch)
        → Wakes d id (record d { left = put id ch d.left }) (payload p)
    timeout : Wakes d id d timed_out
    shut : d.closed ≡ true → Wakes d id d dispatcher_closed

unfoldable pub new_dispatcher : (T : Type 0) → Dispatcher T
new_dispatcher T = record { channels = λ _. none; closed = false; left = λ _. none }
