-- ===== src/Invocation/Dispatcher/Concurrent.antt =====
-- invocation/dispatcher.go, with its calls cut at the operations that other goroutines can come
-- between: the test of the flag, LoadOrCompute or Load, the select, close(d.closed), and one visit of
-- Range. Channels have addresses, so that a call keeps the channel that it was given.
pub mod Races
pub mod Panics
pub mod Leaks
use maos_core.Common.{
  ◌++◌, ◌==◌, Bool, true, false, List, [], ◌∷◌, ℕ, suc, Option, none, some, if◌then◌else◌, ◌≡◌,
}
use maos_core.Common.Decimal.{Text}
use maos_core.Common.TextEquality.{text_eq}
use maos_core.Invocation.Dispatcher.{send}

module _ (T : Type 0) where
  pub record Channel : Type 0 where
    pub buffer : List T
    pub shut : Bool

  pub record Shared : Type 0 where
    pub entries : Text → Option ℕ
    pub heap : ℕ → Channel
    pub next : ℕ
    pub closed : Bool

  -- A call under way, after its last operation.
  pub data Call : Type 0 where
    -- Listen or WaitFor, which found the dispatcher open.
    creates : Text → Call
    -- WaitFor, which has its channel.
    waits : ℕ → Call
    -- Dispatch, which found the dispatcher open, and then has its channel.
    loads : Text → T → Call
    sends : ℕ → T → Call
    -- Close, which found the dispatcher open, and then goes through the channels.
    closes : Call
    sweeps : Call

  pub record Running : Type 0 where
    pub shared : Shared
    pub calls : List Call

module _ {T : Type 0} where
  abbrev pub write_channel : ℕ → Channel T → Shared T → Shared T
  write_channel c ch s = record s { heap = λ k. if k == c then ch else s.heap k }

  abbrev pub set_entry : Text → Option ℕ → Shared T → Shared T
  set_entry id o s = record s { entries = λ j. if text_eq j id then o else s.entries j }

  abbrev pub computed : Text → Shared T → Option ℕ → Shared T
  computed id s (some c) = s
  computed id s none =
      set_entry id (some s.next)
        (record (write_channel s.next (record { buffer = []; shut = false }) s) {
          next = suc s.next;
        })

  -- LoadOrCompute.
  unfoldable pub load_or_compute : Text → Shared T → Shared T
  load_or_compute id s = computed id s (s.entries id)

  abbrev pub swept : Text → Shared T → Option ℕ → Shared T
  swept id s none = s
  swept id s (some c) = set_entry id none (write_channel c (record (s.heap c) { shut = true }) s)

  -- One visit of Range: `close(ch)` and Delete.
  unfoldable pub sweep : Text → Shared T → Shared T
  sweep id s = swept id s (s.entries id)

  -- What a call does next, and how it goes on; `none` is its return. A send on a channel that is shut
  -- panics, as does the second close of the flag: neither is here.
  pub data Acts (s : Shared T) : Call T → Shared T → Option (Call T) → Type 0 where
    listened : (id : Text) → Acts s (creates id) (load_or_compute id s) none
    joined :
        (id : Text) (c : ℕ)
        → (load_or_compute id s).entries id ≡ some c
        → Acts s (creates id) (load_or_compute id s) (some (waits c))
    received :
        (c : ℕ) (p : T) (ps : List T)
        → (s.heap c).buffer ≡ p ∷ ps
        → Acts s (waits c) (write_channel c (record (s.heap c) { buffer = ps }) s) none
    -- The timeout, or the flag or the channel that is closed.
    gave_up : (c : ℕ) → Acts s (waits c) s none
    unknown : (id : Text) (p : T) → s.entries id ≡ none → Acts s (loads id p) s none
    loaded :
        (id : Text) (p : T) (c : ℕ)
        → s.entries id ≡ some c
        → Acts s (loads id p) s (some (sends c p))
    sent :
        (c : ℕ) (p : T)
        → (s.heap c).shut ≡ false
        → Acts s
            (sends c p)
            (write_channel c (record (s.heap c) { buffer = send (s.heap c).buffer p }) s)
            none
    declined : (c : ℕ) (p : T) → s.closed ≡ true → Acts s (sends c p) s none
    flagged : s.closed ≡ false → Acts s closes (record s { closed = true }) (some sweeps)
    visited : (id : Text) → Acts s sweeps (sweep id s) (some sweeps)
    -- Range may miss what others store meanwhile.
    finished : Acts s sweeps s none

  -- What a call that finds the dispatcher open does after that.
  abbrev pub is_entry : Call T → Bool
  is_entry (creates id) = true
  is_entry (loads id p) = true
  is_entry closes = true
  is_entry (waits c) = false
  is_entry (sends c p) = false
  is_entry sweeps = false

  abbrev pub followed : Option (Call T) → List (Call T) → List (Call T)
  followed none cs = cs
  followed (some c) cs = c ∷ cs

  -- A call starts, where it finds the dispatcher open, or one that is under way goes on. A call that
  -- finds the dispatcher closed is refused, and changes nothing.
  pub data Move (w : Running T) : Running T → Type 0 where
    starts :
        (c : Call T)
        → w.shared.closed ≡ false
        → is_entry c ≡ true
        → Move w (record { shared = w.shared; calls = c ∷ w.calls })
    goes_on :
        (xs ys : List (Call T)) (c : Call T) (s : Shared T) (o : Option (Call T))
        → w.calls ≡ xs ++ c ∷ ys
        → Acts w.shared c s o
        → Move w (record { shared = s; calls = xs ++ followed o ys })

  pub data Moves (w : Running T) : Running T → Type 0 where
    no_move : Moves w w
    and_then : {u v : Running T} → Moves w u → Move u v → Moves w v

  abbrev pub initial : Running T
  initial = record {
    shared = record {
      entries = λ id. none;
      heap = λ c. record { buffer = []; shut = false };
      next = 0;
      closed = false;
    };
    calls = [];
  }
