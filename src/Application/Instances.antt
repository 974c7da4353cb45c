-- ===== src/Application/Instances.antt =====
-- A process is taken for one instance only.
use lean_fm.Common.{
  ℕ, String, true, false, Option, none, some, List, [], ◌∷◌, ◌≡◌, refl, sym, ap, ◌∙◌, ◌<◌, arith,
  eq_iff, if◌then◌else◌, leb, some-injective, zero, suc,
}
use lean_fm.Application.Identity.{
  Claim, Process, Installation, same_texts, expected, is_process, is_shown, alive,
}

same_texts-eq : (ss ts : List String) → same_texts ss ts ≡ true → ss ≡ ts
unfolding same_texts
same_texts-eq [] [] h = refl
same_texts-eq [] (t ∷ ts) h = absurd cc
same_texts-eq (s ∷ ss) [] h = absurd cc
same_texts-eq (s ∷ ss) (t ∷ ts) h =
    let here : s ≡ t = (eq_iff s t).0 (ground (arith, h)) in
    let there = same_texts-eq ss ts (ground (arith, h)) in cc

-- `xs[n]`, or the empty text
abbrev nth : ℕ → List String → String
nth n [] = ""
nth zero (x ∷ xs) = x
nth (suc n) (x ∷ xs) = nth n xs

-- What `alive` found.
alive_requires :
    (i : Installation) (processes : ℕ → Option Process) (c : Claim)
    → alive i processes c ≡ true
    → (pid : ℕ) × (p : Process) × (c.pid ≡ some pid)
      × (1 < pid)
      × (processes pid ≡ some p)
      × (p.start_time ≡ c.start_time)
      × (p.arguments ≡ expected i c)
unfolding alive is_process
alive_requires i processes c h = go c.pid refl h
  where
    Answer : Type 0
    Answer =
        (pid : ℕ) × (p : Process) × (c.pid ≡ some pid)
        × (1 < pid)
        × (processes pid ≡ some p)
        × (p.start_time ≡ c.start_time)
        × (p.arguments ≡ expected i c)

    shown :
        (pid : ℕ) (o : Option Process)
        → c.pid ≡ some pid
        → 1 < pid
        → processes pid ≡ o
        → is_shown i c o ≡ true
        → Answer
    shown pid none e big f h = absurd cc
    shown pid (some p) e big f h = (
      pid,
      p,
      e,
      big,
      f,
      (eq_iff p.start_time c.start_time).0 (ground (arith, h)),
      same_texts-eq p.arguments (expected i c) (ground (arith, h)),
    )

    go :
        (o : Option ℕ)
        → c.pid ≡ o
        → elim o [
          | none ↦ false
          | some pid ↦ if leb pid 1 then false else is_shown i c (processes pid)
        ]
          ≡ true
        → Answer
    go none e h = absurd cc
    go (some pid) e h = shown pid (processes pid) e (ground (arith, h)) refl (ground (arith, h))

-- Two records that `alive` accepts for the same process number name the same project root, the
-- same instance and the same start of the process, and the number is above 1.
pub alive_exclusive :
    (i : Installation) (processes : ℕ → Option Process) (c d : Claim)
    → alive i processes c ≡ true
    → alive i processes d ≡ true
    → c.pid ≡ d.pid
    → (c.root ≡ d.root)
      × (c.instance_id ≡ d.instance_id)
      × (c.start_time ≡ d.start_time)
      × (pid : ℕ) × (c.pid ≡ some pid)
      × (1 < pid)
alive_exclusive i processes c d hc hd same =
    let (m, p, em, bigm, fm, tm, am) = alive_requires i processes c hc in
    let (n, q, en, bign, fn, tn, an) = alive_requires i processes d hd in
    let numbers : m ≡ n = some-injective (sym em ∙ same ∙ en) in
    let processes_eq : p ≡ q = some-injective (sym fm ∙ ap processes numbers ∙ fn) in
    let lists : expected i c ≡ expected i d = sym am ∙ ap Process.arguments processes_eq ∙ an in
    (
      ap (λ l. nth 2 l) lists,
      ap (λ l. nth 3 l) lists,
      sym tm ∙ ap Process.start_time processes_eq ∙ tn,
      m,
      em,
      bigm,
    )
