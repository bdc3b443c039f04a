-- ===== src/Contracts/Families.antt =====
-- The map of capabilities by family in `ValidatePlanAgainstManifest` of pkg/backend/contracts.go.
use mathlib.Core.List.{Memᴰ}
use mathlib.Core.List.Memᴰ.{head, tail}
use harness_trajectory_bench.Prelude.{
  String, ◌≡◌, refl, sym, ap, ◌∙◌, subst, ◌≢◌, ◌⊎◌, inl, inr, some, List, [], ◌∷◌, arith, ◌==◌,
  ==_iff, nat_eq, string_eq, bool_eq, list_eq, pair_eq, Bool-cases, All, ==_eq-false, lookup,
  insert, lookup-insert, lookup-insert_self, Distinct,
}
use harness_trajectory_bench.Contracts.Plan.{Capability, by_family}

pub All-at {ℓ κ} : {A : Type ℓ} (P : A → Type κ) {a : A} (xs : List A) → Memᴰ a xs → All P xs → P a
All-at P [] m h = elim m [ ]
All-at P (x ∷ xs) (head e) h = subst P (sym e) h.0
All-at P (x ∷ xs) (tail m) h = All-at P xs m h.1

lookup-by_family_absent :
    (f : String) (cs : List Capability) (m : List (String × Capability))
    → All (λ c. f ≢ c.event_family) cs
    → lookup f (by_family cs m) ≡ lookup f m
unfolding by_family
lookup-by_family_absent f [] m h = refl
lookup-by_family_absent f (c ∷ cs) m h =
    rw
      (
        lookup-by_family_absent f cs (insert c.event_family c m) h.1,
        lookup-insert c.event_family f c m,
        ==_eq-false c.event_family f (λ e. h.0 (sym e)),
      )
      refl

pub lookup-by_family :
    (c : Capability) (cs : List Capability) (m : List (String × Capability))
    → Memᴰ c cs
    → Distinct (λ d. d.event_family) cs
    → lookup c.event_family (by_family cs m) ≡ some c
unfolding by_family
lookup-by_family c [] m i h = elim i [ ]
lookup-by_family c (d ∷ ds) m (head e) h =
    subst (λ x. lookup x.event_family (by_family ds (insert d.event_family d m)) ≡ some x) (sym e)
      (lookup-by_family_absent d.event_family ds (insert d.event_family d m) h.0
        ∙ lookup-insert_self d.event_family d m)
lookup-by_family c (d ∷ ds) m (tail i) h = lookup-by_family c ds (insert d.event_family d m) i h.1

pub by_family-Mem :
    (f : String) (cs : List Capability) (m : List (String × Capability)) {c : Capability}
    → lookup f (by_family cs m) ≡ some c
    → (lookup f m ≡ some c) ⊎ (Memᴰ c cs × (c.event_family ≡ f))
unfolding by_family
by_family-Mem f [] m h = inl h
by_family-Mem f (d ∷ ds) m {c = c} h = elim (by_family-Mem f ds (insert d.event_family d m) h) [
  | inr (i, e) ↦ inr (tail i, e)
  | inl e ↦ elim (Bool-cases (d.event_family == f)) [
    | inl same ↦
        let found : d ≡ c = ground (arith, lookup-insert d.event_family f d m) in
        inr (
          head (sym found),
          ap (λ x. x.event_family) (sym found) ∙ (==_iff d.event_family f).0 same,
        )
    | inr other ↦ inl (ground (arith, lookup-insert d.event_family f d m))
  ]
]
