-- ===== src/Log/Lines.antt =====
-- The semaphore keeps lines whole.
use mathlib.Core.List.{append_assoc, append-nil}
use mett_eagle.Base.{ℕ, ◌+◌, ◌≤◌, ◌≡◌, refl, ap, sym, ◌∙◌, List, [], ◌∷◌, ◌++◌, arith, Bytes}
use mett_eagle.Log.{
  Phase, outside, printing, Console, Step, raises, enters, prints, leaves, prints_bare, Reach, here,
  later,
}

abbrev pub joined : List Bytes → Bytes
joined [] = []
joined (p ∷ ps) = p ++ joined ps

-- The text of the lines, the latest first in the list and last in the text.
abbrev pub text : List (List Bytes) → Bytes
text [] = []
text (line ∷ lines) = text lines ++ joined line

abbrev inside : Phase → ℕ
inside outside = 0
inside (printing pieces) = 1

abbrev rest_of : Phase → Bytes
rest_of outside = []
rest_of (printing pieces) = joined pieces

abbrev pub printing_count : List Phase → ℕ
printing_count [] = 0
printing_count (p ∷ ps) = inside p + printing_count ps

-- What the processes have still to print of their lines.
abbrev pub unprinted : List Phase → Bytes
unprinted [] = []
unprinted (p ∷ ps) = rest_of p ++ unprinted ps

-- How often `down` can have been passed without an `up`.
abbrev permits : Console → ℕ
permits c = c.semaphore + printing_count c.processes

printing_count-append :
    (xs ys : List Phase) → printing_count (xs ++ ys) ≡ printing_count xs + printing_count ys
printing_count-append [] ys = omega arith
printing_count-append (x ∷ xs) ys = omega (arith, printing_count-append xs ys)

unprinted_none : (ps : List Phase) → printing_count ps ≡ 0 → unprinted ps ≡ []
unprinted_none [] h = refl
unprinted_none (outside ∷ ps) h = unprinted_none ps (omega arith)
unprinted_none (printing pieces ∷ ps) h = absurd (omega arith)

-- The only process that prints.
unprinted_only :
    (before after : List Phase) (p : Phase)
    → printing_count before ≡ 0
    → printing_count after ≡ 0
    → unprinted (before ++ p ∷ after) ≡ rest_of p
unprinted_only [] after p hb ha = rw (unprinted_none after ha) (append-nil _)
unprinted_only (outside ∷ before) after p hb ha = unprinted_only before after p (omega arith) ha
unprinted_only (printing pieces ∷ before) after p hb ha = absurd (omega arith)

abbrev IsWhole : Console → Type 0
IsWhole c =
    (permits c ≡ 0 → c.begun ≡ [])
    × (permits c ≤ 1 → c.output ++ unprinted c.processes ≡ text c.begun)

-- One process prints, and none has begun before it, or another one holds up the semaphore.
alone :
    (before after : List Phase) (p : Phase) (count : ℕ)
    → count + printing_count (before ++ p ∷ after) ≤ count + inside p
    → unprinted (before ++ p ∷ after) ≡ rest_of p
alone before after p count h =
    let counts = printing_count-append before (p ∷ after) in
    unprinted_only before after p (omega arith) (omega arith)

-- The pieces of a process without the semaphore.
abbrev is_bare : {c d : Console} → Step c d → ℕ
is_bare (raises count ps out lines) = 0
is_bare (enters count before after out lines pieces) = 0
is_bare (prints count before after out lines piece rest) = 0
is_bare (leaves count before after out lines) = 0
is_bare (prints_bare count ps out lines piece) = 1

abbrev pub bare_count : {c d : Console} → Reach c d → ℕ
bare_count here = 0
bare_count (later p s) = is_bare s + bare_count p

Step-IsWhole : (c d : Console) → IsWhole c → (s : Step c d) → is_bare s ≡ 0 → IsWhole d
Step-IsWhole _ _ v (raises count ps out lines) guarded =
    (λ h. absurd (omega arith), λ h. v.1 (omega arith))
Step-IsWhole _ _ v (enters count before after out lines pieces) guarded =
    let outer = printing_count-append before (outside ∷ after) in
    let inner = printing_count-append before (printing pieces ∷ after) in
    (
      λ h. absurd (omega arith),
      λ h.
          let earlier : out ≡ text lines =
            sym (append-nil out)
            ∙ (ap (λ r. out ++ r) (sym (alone before after outside 0 (omega arith)))
                ∙ v.1 (omega arith)) in
          rw (alone before after (printing pieces) 0 (omega arith))
            (ap (λ o. o ++ joined pieces) earlier),
    )
Step-IsWhole _ _ v (prints count before after out lines piece rest) guarded =
    let outer = printing_count-append before (printing (piece ∷ rest) ∷ after) in
    let inner = printing_count-append before (printing rest ∷ after) in
    (
      λ h. absurd (omega arith),
      λ h.
          ap (λ r. (out ++ piece) ++ r) (alone before after (printing rest) 0 (omega arith))
          ∙ (append_assoc out piece (joined rest)
              ∙ (ap (λ r. out ++ r)
                    (sym (alone before after (printing (piece ∷ rest)) 0 (omega arith)))
                  ∙ v.1 (omega arith))),
    )
Step-IsWhole _ _ v (leaves count before after out lines) guarded =
    let outer = printing_count-append before (printing [] ∷ after) in
    let inner = printing_count-append before (outside ∷ after) in
    (
      λ h. absurd (omega arith),
      λ h.
          ap (λ r. out ++ r)
            (alone before after outside 0 (omega arith)
              ∙ sym (alone before after (printing []) 0 (omega arith)))
          ∙ v.1 (omega arith),
    )
Step-IsWhole _ _ v (prints_bare count ps out lines piece) guarded = absurd (omega arith)

-- Processes that do not log yet, and an empty output; the semaphore as its configuration creates it.
abbrev pub quiet : List Phase → Console
quiet ps = record { semaphore = 0; processes = ps; output = []; begun = [] }

-- The `up` operations from outside.
abbrev is_raise : {c d : Console} → Step c d → ℕ
is_raise (raises count ps out lines) = 1
is_raise (enters count before after out lines pieces) = 0
is_raise (prints count before after out lines piece rest) = 0
is_raise (leaves count before after out lines) = 0
is_raise (prints_bare count ps out lines piece) = 0

abbrev pub raise_count : {c d : Console} → Reach c d → ℕ
raise_count here = 0
raise_count (later p s) = is_raise s + raise_count p

-- Each of them is a permit, and there are no others.
permits-Step : (c d : Console) (s : Step c d) → permits d ≡ is_raise s + permits c
permits-Step _ _ (raises count ps out lines) = omega arith
permits-Step _ _ (enters count before after out lines pieces) =
    let outer = printing_count-append before (outside ∷ after) in
    let inner = printing_count-append before (printing pieces ∷ after) in omega arith
permits-Step _ _ (prints count before after out lines piece rest) =
    let outer = printing_count-append before (printing (piece ∷ rest) ∷ after) in
    let inner = printing_count-append before (printing rest ∷ after) in omega arith
permits-Step _ _ (leaves count before after out lines) =
    let outer = printing_count-append before (printing [] ∷ after) in
    let inner = printing_count-append before (outside ∷ after) in omega arith
permits-Step _ _ (prints_bare count ps out lines piece) = omega arith

module _ (ps : List Phase) (none_prints : printing_count ps ≡ 0) where
  permits-Reach : (c : Console) (p : Reach (quiet ps) c) → permits c ≡ raise_count p
  permits-Reach _ here = omega arith
  permits-Reach c (later {d = b} p s) = omega (arith, permits-Step b c s, permits-Reach b p)

  reach-IsWhole : (c : Console) (p : Reach (quiet ps) c) → bare_count p ≡ 0 → IsWhole c
  reach-IsWhole _ here guarded = (λ h. refl, λ h. unprinted_none ps none_prints)
  reach-IsWhole c (later {d = b} p s) guarded =
      Step-IsWhole b c (reach-IsWhole b p (omega arith)) s (omega arith)

  -- From the start with a semaphore of 0 and no process that prints, in every order of steps in which
  -- only processes that have the semaphore print: as long as nobody has raised the semaphore from
  -- outside, no process begins a line; and as long as it has been raised once at most, one process at
  -- most prints, and the output followed by what it has still to print is the text of the lines in the
  -- order in which they were begun, so no line has another one in it.
  pub lines_whole :
      (c : Console) (p : Reach (quiet ps) c)
      → bare_count p ≡ 0
      → (raise_count p ≡ 0 → c.begun ≡ [])
        × (raise_count p ≤ 1
            → (printing_count c.processes ≤ 1) × (c.output ++ unprinted c.processes ≡ text c.begun))
  lines_whole c p guarded =
      let counted = permits-Reach c p in
      let (silent, whole) = reach-IsWhole c p guarded in
      (λ h. silent (omega arith), λ h. (omega arith, whole (omega arith)))
