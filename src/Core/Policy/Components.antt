-- ===== src/Core/Policy/Components.antt =====
-- `path_is_within` (crates/aios-core/src/policy.rs) compares characters; here it is seen on the
-- components between the slashes.
use mathlib.Core.List.{append_assoc, append-nil}
use ai_os.Prelude.{
  ℕ, ◌≡◌, refl, sym, ap, ◌∙◌, ◌↔◌, ◌⊎◌, inl, inr, true, List, [], ◌∷◌, ◌++◌, some, arith, nat_beq,
  nat_beq_iff, nat_eq, Bool-cases, Option-cases, list_eq, list_beq_iff, strip_prefix,
}
use ai_os.Core.Text.{Text, split, cons_first, starts_with}
use ai_os.Core.Policy.{path_is_within}

abbrev pub slash : ℕ
slash = b'/'

abbrev pub components : Text → List Text
components = split slash

-- The capability's components are the first components of the path.
abbrev pub Covers : Text → Text → Type 0
Covers capability_path path =
    (rest : List Text) × (components path ≡ components capability_path ++ rest)

join : List Text → Text
join [] = []
join (p ∷ []) = p
join (p ∷ q ∷ ps) = p ++ slash ∷ join (q ∷ ps)

join-cons_first : (c : ℕ) (ps : List Text) → join (cons_first c ps) ≡ c ∷ join ps
unfolding join
join-cons_first c [] = refl
join-cons_first c (p ∷ []) = refl
join-cons_first c (p ∷ q ∷ ps) = refl

-- `split` gives at least one piece.
pub split_cons : (s : Text) → (p : Text) × (ps : List Text) × (components s ≡ p ∷ ps)
unfolding split
split_cons [] = ([], [], refl)
split_cons (c ∷ s) =
    let (p, ps, e) = split_cons s in
    elim (Bool-cases (nat_beq c slash)) [
      | inl hit ↦ ([], split slash s, rw hit)
      | inr miss ↦ (c ∷ p, ps, rw (miss, e))
    ]

join-slash :
    (ps : List Text) (p : Text) (qs : List Text) → join ([] ∷ p ∷ qs) ≡ slash ∷ join (p ∷ qs)
unfolding join
join-slash ps p qs = refl

join-split : (s : Text) → join (components s) ≡ s
unfolding split join
join-split [] = refl
join-split (c ∷ s) =
    let (p, ps, e) = split_cons s in
    elim (Bool-cases (nat_beq c slash)) [
      | inl hit ↦
          rw (hit, e)
            (ap (◌∷◌ slash) (ap join (sym e) ∙ join-split s)
              ∙ ap (λ (d : ℕ). d ∷ s) (sym ((nat_beq_iff c slash).0 hit)))
      | inr miss ↦ rw miss (join-cons_first c (split slash s) ∙ ap (◌∷◌ c) (join-split s))
    ]

join-append :
    (p : Text) (ps : List Text) (q : Text) (qs : List Text)
    → join ((p ∷ ps) ++ (q ∷ qs)) ≡ join (p ∷ ps) ++ slash ∷ join (q ∷ qs)
unfolding join
join-append p [] q qs = refl
join-append p (p' ∷ ps) q qs =
    rw (join-append p' ps q qs) (sym (append_assoc p (slash ∷ join (p' ∷ ps)) _))

cons_first-append :
    (c : ℕ) (p : Text) (ps qs : List Text)
    → cons_first c ((p ∷ ps) ++ qs) ≡ cons_first c (p ∷ ps) ++ qs
cons_first-append c p ps qs = refl

split-append : (s t : Text) → components (s ++ slash ∷ t) ≡ components s ++ components t
unfolding split
split-append [] t = refl
split-append (c ∷ s) t = elim (Bool-cases (nat_beq c slash)) [
  | inl hit ↦ rw hit (ap (◌∷◌ []) (split-append s t))
  | inr miss ↦ let (p, ps, e) = split_cons s in rw miss (rw (split-append s t) (rw e refl))
]

strip_prefix-eq-some : (p s u : Text) → (strip_prefix p s ≡ some u) ↔ (s ≡ p ++ u)
strip_prefix-eq-some [] s u = ground arith
strip_prefix-eq-some (c ∷ p) [] u = ground arith
strip_prefix-eq-some (c ∷ p) (d ∷ s) u = ground (arith, strip_prefix-eq-some p s u)

starts_with_split : (u : Text) → starts_with slash u ≡ true → (t : Text) × (u ≡ slash ∷ t)
starts_with_split [] h = cc
starts_with_split (c ∷ t) h = (t, ap (λ (d : ℕ). d ∷ t) ((nat_beq_iff c slash).0 h))

abbrev Extends : Text → Text → Type 0
Extends cap path = (path ≡ cap) ⊎ ((t : Text) × (path ≡ cap ++ slash ∷ t))

within_Extends : (path cap : Text) → path_is_within path cap ≡ true → Extends cap path
unfolding path_is_within
within_Extends path cap h = elim (Option-cases (strip_prefix cap path)) [
  | inl gone ↦ inl ((list_beq_iff path cap).0 (ground arith))
  | inr (suffix, e) ↦ elim (Bool-cases (starts_with slash suffix)) [
    | inl start ↦
        let (t, e') = starts_with_split suffix start in
        inr (t, (strip_prefix-eq-some cap path suffix).0 e ∙ ap (◌++◌ cap) e')
    | inr other ↦ inl ((list_beq_iff path cap).0 (ground arith))
  ]
]

Extends-within : (path cap : Text) → Extends cap path → path_is_within path cap ≡ true
unfolding path_is_within
Extends-within path cap (inl e) = ground (arith, list_beq_iff path cap)
Extends-within path cap (inr (t, e)) =
    ground (arith, (strip_prefix-eq-some cap path (slash ∷ t)).1 e, list_beq_iff path cap)

Covers_Extends :
    (path cap : Text) (rest : List Text)
    → components path ≡ components cap ++ rest
    → Extends cap path
Covers_Extends path cap [] e =
    inl (sym (join-split path) ∙ ap join (e ∙ append-nil (components cap)) ∙ join-split cap)
Covers_Extends path cap (q ∷ qs) e =
    let (p, ps, e') = split_cons cap in
    inr (
      join (q ∷ qs),
      sym (join-split path)
          ∙ ap join (e ∙ ap (λ (l : List Text). l ++ q ∷ qs) e')
          ∙ join-append p ps q qs
          ∙ ap (λ (l : Text). l ++ slash ∷ join (q ∷ qs)) (ap join (sym e') ∙ join-split cap),
    )

-- A path is within a capability exactly when the capability's components are the first of the
-- path's: a sibling whose name only begins alike is not.
pub path_is_within_iff : (path cap : Text) → (path_is_within path cap ≡ true) ↔ Covers cap path
path_is_within_iff path cap = (
  (λ h. elim (within_Extends path cap h) [
    | inl e ↦ ([], ap components e ∙ sym (append-nil (components cap)))
    | inr (t, e) ↦ (components t, ap components e ∙ split-append cap t)
  ]),
  (λ (rest, e). Extends-within path cap (Covers_Extends path cap rest e)),
)
