-- ===== src/Application/Recorded.antt =====
-- The events of events.jsonl.
use lean_fm.Common.{
  ℕ, zero, suc, ◌+◌, ◌-◌, String, Bool, true, false, none, some, List, [], ◌∷◌, ◌++◌, map, ◌≡◌,
  refl, ap, subst, arith, if◌then◌else◌, length, drop, take_last, ltb,
}
use lean_fm.Common.Table.{Table, lookup}
use lean_fm.Application.Journal.{
  Recorded, start, status, stop, Event, Context, kept, journal, request_event, response_event,
  request_payload, response_payload, values_of, pick_from, allowed,
}

-- The events are requests, each followed by a response that names it as its only predecessor and
-- as its cause, of the same session and task, with the ends exchanged.
unfoldable pub IsPaired : List Event → Type 0
IsPaired [] = Unit
IsPaired (q ∷ []) = ⊥
IsPaired (q ∷ r ∷ events) =
    (r.cause_id ≡ some q.id)
    × (r.prior_ids ≡ q.id ∷ [])
    × (r.session ≡ q.session)
    × (r.task ≡ q.task)
    × (r.src ≡ q.dst)
    × (r.dst ≡ q.src)
    × IsPaired events

abbrev double : ℕ → ℕ
double zero = 0
double (suc n) = suc (suc (double n))

double_lem : (n : ℕ) → double n ≡ n + n
double_lem zero = omega arith
double_lem (suc n) = omega (arith, double_lem n)

IsPaired-even : (events : List Event) → IsPaired events → (n : ℕ) × (length events ≡ double n)
unfolding IsPaired
IsPaired-even [] h = (0, refl)
IsPaired-even (q ∷ []) h = absurd h
IsPaired-even (q ∷ r ∷ events) (c, p, s, t, u, v, h) =
    let (n, e) = IsPaired-even events h in (suc n, ap (λ k. suc (suc k)) e)

IsPaired-drop : (n : ℕ) (events : List Event) → IsPaired events → IsPaired (drop (double n) events)
unfolding IsPaired
IsPaired-drop zero events h = h
IsPaired-drop (suc n) [] h = tt
IsPaired-drop (suc n) (q ∷ []) h = absurd h
IsPaired-drop (suc n) (q ∷ r ∷ events) (c, p, s, t, u, v, h) = IsPaired-drop n events h

IsPaired-append : (xs ys : List Event) → IsPaired xs → IsPaired ys → IsPaired (xs ++ ys)
unfolding IsPaired
IsPaired-append [] ys h k = k
IsPaired-append (q ∷ []) ys h k = absurd h
IsPaired-append (q ∷ r ∷ events) ys (c, p, s, t, u, v, h) k =
    (c, p, s, t, u, v, IsPaired-append events ys h k)

kept-IsPaired : (size : List Event → ℕ) (old : List Event) → IsPaired old → IsPaired (kept size old)
kept-IsPaired size old h = go (ltb 1_048_576 (size old))
  where
    go : (b : Bool) → IsPaired (if b then take_last 400 old else old)
    go false = h
    go true =
        let (n, e) = IsPaired-even old h in
        let cut : double (n - 200) ≡ length old - 400 =
          omega (arith, e, double_lem n, double_lem (n - 200)) in
        subst (λ k. IsPaired (drop k old)) cut (IsPaired-drop (n - 200) old h)

-- Whatever a command records, and also where the oldest lines are dropped for it, the events stay
-- pairs of a request and the response that it caused.
pub journal-IsPaired :
    (size : List Event → ℕ) (failed : Bool) (c : Context) (token : String) (now : ℕ)
    (value : Table String) (old : List Event)
    → IsPaired old
    → IsPaired (journal size failed c token now value old)
unfolding journal request_event response_event IsPaired
journal-IsPaired size failed c token now value old h =
    IsPaired-append (kept size old) _ (kept-IsPaired size old h)
      (refl, refl, refl, refl, refl, refl, tt)

-- Whether an event's payload has an entry under a key that gives access.
abbrev pub Hides : Event → Type 0
Hides e =
    (lookup "capability" e.payload ≡ none)
    × (lookup "nonce" e.payload ≡ none)
    × (lookup "preview_prefix" e.payload ≡ none)
    × (lookup "owner" e.payload ≡ none)

request-Hides : (c : Context) → Hides (request_event c)
unfolding request_event request_payload lookup
request-Hides c = elim c.operation as (λ o. Hides (request_event (record c { operation = o }))) [
  | start ↦ (refl, refl, refl, refl)
  | status ↦ (refl, refl, refl, refl)
  | stop ↦ (refl, refl, refl, refl)
]

-- No recorded event carries the owner, the nonce, the capability or the preview's address, whatever
-- the command was given and whatever it answered.
pub journal-Hides :
    (failed : Bool) (c : Context) (token : String) (now : ℕ) (value : Table String)
    → Hides (request_event c) × Hides (response_event failed c token now value)
unfolding response_event response_payload lookup
journal-Hides failed c token now value =
    (request-Hides c, go failed c.operation (values_of failed c value))
  where
    absent : Bool → Recorded → Table String → String → Type 0
    absent f o values key = lookup key (map (pick_from values) (allowed f o)) ≡ none

    go :
        (f : Bool) (o : Recorded) (values : Table String)
        → absent f o values "capability"
          × absent f o values "nonce"
          × absent f o values "preview_prefix"
          × absent f o values "owner"
    go true start values = (refl, refl, refl, refl)
    go true status values = (refl, refl, refl, refl)
    go true stop values = (refl, refl, refl, refl)
    go false start values = (refl, refl, refl, refl)
    go false status values = (refl, refl, refl, refl)
    go false stop values = (refl, refl, refl, refl)
