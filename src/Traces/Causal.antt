-- ===== src/Traces/Causal.antt =====
-- The order of a trace's events, described apart from the tables that the loops keep.
use lean_fm.Common.{
  some-injective, ℕ, suc, ◌+◌, ◌≤◌, ◌≡◌, refl, sym, ap, ◌∙◌, subst, String, Bool, true, false,
  Option, none, some, List, [], ◌∷◌, ◌++◌, if◌then◌else◌, ◌==◌, length, length-append, All, arith,
}
use lean_fm.Common.Table.{Table, lookup, insert, lookup-insert}
use lean_fm.Traces.Log.{Event, Log, Link, empty_log, to_list, known, envelope, add_event}

-- The identifier of the last event that a sender has among the events.
unfoldable pub last_from : String → List Event → Option ℕ
last_from s [] = none
last_from s (e ∷ events) = elim (last_from s events) [
  | some i ↦ some i
  | none ↦ if e.src == s then some e.id else none
]

-- A number of one of the first `n` events.
unfoldable pub IsAmong : ℕ → ℕ → Type 0
IsAmong n i = (1 ≤ i) × (i ≤ n)

-- After the events `before`: the events are numbered on, each names the last event of its sender
-- before it as its predecessor, and events before it as its causes.
unfoldable pub IsOrdered : List Event → List Event → Type 0
unfolding IsAmong last_from
IsOrdered before [] = Unit
IsOrdered before (e ∷ events) =
    (e.id ≡ suc (length before))
    × (e.prev_ids ≡ to_list (last_from e.src before))
    × All (IsAmong (length before)) e.cause_ids
    × IsOrdered (before ++ e ∷ []) events

unfoldable pub IsTable : ℕ → Table ℕ → Type 0
unfolding IsAmong lookup
IsTable n table = (key : String) (i : ℕ) → lookup key table ≡ some i → IsAmong n i

-- What the loops keep of the log.
pub record IsLog (log : Log) : Type 0 where
  pub ordered : IsOrdered [] log.events
  pub last : (s : String) → lookup s log.last_by ≡ last_from s log.events
  pub sent : IsTable (length log.events) log.sent

pub empty_log-IsLog : IsLog empty_log
unfolding IsOrdered IsTable IsAmong lookup last_from
empty_log-IsLog = record { ordered = tt; last = λ s. refl; sent = λ key i h. absurd cc }

last_from-snoc :
    (s : String) (events : List Event) (e : Event)
    → last_from s (events ++ e ∷ []) ≡ (if e.src == s then some e.id else last_from s events)
unfolding last_from
last_from-snoc s [] e = refl
last_from-snoc s (x ∷ events) e =
    ap (λ o. elim o [ some i ↦ some i | none ↦ if x.src == s then some x.id else none ])
      (last_from-snoc s events e)
    ∙ step (e.src == s)
  where
    step :
        (b : Bool)
        → elim (if b then some e.id else last_from s events) [
          | some i ↦ some i
          | none ↦ if x.src == s then some x.id else none
        ]
          ≡ (if b then some e.id else elim (last_from s events) [
            | some i ↦ some i
            | none ↦ if x.src == s then some x.id else none
          ])
    step true = refl
    step false = refl

append-nil : (xs : List Event) → xs ++ [] ≡ xs
append-nil [] = refl
append-nil (x ∷ xs) = ap (λ l. x ∷ l) (append-nil xs)

append_assoc : (xs ys zs : List Event) → (xs ++ ys) ++ zs ≡ xs ++ (ys ++ zs)
append_assoc [] ys zs = refl
append_assoc (x ∷ xs) ys zs = ap (λ l. x ∷ l) (append_assoc xs ys zs)

-- One more event after the ordered ones.
IsOrdered-snoc :
    (before events : List Event) (e : Event)
    → IsOrdered before events
    → IsOrdered (before ++ events) (e ∷ [])
    → IsOrdered before (events ++ e ∷ [])
unfolding IsOrdered
IsOrdered-snoc before [] e h last = subst (λ l. IsOrdered l (e ∷ [])) (append-nil before) last
IsOrdered-snoc before (x ∷ events) e (i, p, c, rest) last =
    let here = subst (λ l. IsOrdered l (e ∷ [])) (sym (append_assoc before (x ∷ []) events)) last in
    (i, p, c, IsOrdered-snoc (before ++ x ∷ []) events e rest here)

pub known-IsAmong :
    (n : ℕ) (key : String) (table : Table ℕ) → IsTable n table → All (IsAmong n) (known key table)
unfolding known IsTable
known-IsAmong n key table h = go (lookup key table) refl
  where
    go : (o : Option ℕ) → lookup key table ≡ o → All (IsAmong n) (to_list o)
    go none e = tt
    go (some i) e = (h key i e, tt)

insert-IsTable :
    (n : ℕ) (key : String) (table : Table ℕ)
    → IsTable n table
    → IsTable (suc n) (insert key (suc n) table)
unfolding IsTable IsAmong
insert-IsTable n label table h wanted i found =
    go (label == wanted) (sym (lookup-insert label wanted (suc n) table) ∙ found)
  where
    go : (b : Bool) → (if b then some (suc n) else lookup wanted table) ≡ some i → IsAmong (suc n) i
    go true e = let same : suc n ≡ i = some-injective e in (omega arith, omega (arith, same))
    go false e = let old = h wanted i e in (old.0, omega (arith, old.1))

-- The end of the loops' body keeps the log in order, if the causes are among the events.
pub add_event-IsLog :
    (label : String) (l : Link) (log : Log)
    → IsLog log
    → All (IsAmong (length log.events)) l.causes
    → IsLog (add_event (suc (length log.events)) label l log)
unfolding add_event envelope known IsOrdered
add_event-IsLog label l log h causes = record {
  ordered = IsOrdered-snoc [] log.events _ h.ordered (refl, ap to_list (h.last l.src), causes, tt);
  last = λ s.
      lookup-insert l.src s _ log.last_by
      ∙ ap (λ o. if l.src == s then some (suc (length log.events)) else o) (h.last s)
      ∙ sym (last_from-snoc s log.events _);
  sent =
      subst (λ n. IsTable n (insert label (suc (length log.events)) log.sent))
        (sym (length-append log.events _ ∙ omega arith))
        (insert-IsTable (length log.events) label log.sent h.sent);
}

pub length-add_event :
    (k : ℕ) (label : String) (l : Link) (log : Log)
    → length (add_event k label l log).events ≡ suc (length log.events)
unfolding add_event
length-add_event k label l log = length-append log.events _ ∙ omega arith

-- The numbers of ordered events.
pub IsOrdered-ids :
    (n : ℕ) (before events : List Event)
    → IsOrdered before events
    → n ≡ length before + length events
    → All (λ e. IsAmong n e.id) events
unfolding IsOrdered
IsOrdered-ids n before [] h size = tt
IsOrdered-ids n before (e ∷ events) (i, p, c, rest) size =
    let more = length-append before (e ∷ []) in
    (
      (omega (arith, i), omega (arith, i, size)),
      IsOrdered-ids n (before ++ e ∷ []) events rest (omega (arith, size, more)),
    )

abbrev pub Named : Log → List ℕ → Type 0
Named log ids = All (IsAmong (length log.events)) ids

pub known-Named : (key : String) (log : Log) → IsLog log → Named log (known key log.sent)
known-Named key log h = known-IsAmong _ key log.sent h.sent

pub next-IsLog :
    (k : ℕ) (label : String) (l : Link) (log : Log)
    → k ≡ suc (length log.events)
    → IsLog log
    → Named log l.causes
    → IsLog (add_event k label l log)
next-IsLog k label l log size h c =
    subst (λ i. IsLog (add_event i label l log)) (sym size) (add_event-IsLog label l log h c)
