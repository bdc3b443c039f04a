-- ===== src/Store/Lifecycle.antt =====
-- The lifecycle of a run in internal/api/server.go: which status may follow which.
use harness_trajectory_bench.Prelude.{
  String, ◌≡◌, refl, sym, ap, ◌∙◌, subst, inl, inr, Bool, true, false, ◌&&◌, ◌||◌, none, some, List,
  arith, ◌==◌, ==_iff, Bool-cases, lookup, insert, lookup-insert, nat_eq, string_eq, bool_eq,
  list_eq, pair_eq,
}
use harness_trajectory_bench.Store.Types.{Run, or_else}
use harness_trajectory_bench.Store.Publish.{is_terminal}

-- The edges of the state machine of a run.
unfoldable pub edge : String → String → Bool
edge status next =
    ((status == "created") && ((next == "running") || (next == "failed")))
    || ((status == "running")
        && ((next == "stopping")
            || (next == "stopped")
            || (next == "completed")
            || (next == "failed")))
    || ((status == "stopping") && ((next == "running") || (next == "stopped")))

pub data Walk (from : String) : String → Type 0 where
  stay : Walk from from
  move : {mid to : String} → Walk from mid → edge mid to ≡ true → Walk from to

pub Walk-trans : {a b c : String} → Walk a b → Walk b c → Walk a c
Walk-trans v stay = v
Walk-trans v (move w e) = move (Walk-trans v w) e

-- A run that was changed: only its status and its last update are new.
pub record Moved (r t : Run) : Type 0 where
  pub same_id : t.id ≡ r.id
  pub same_spec : t.spec ≡ r.spec
  pub same_created : t.created_at ≡ r.created_at
  pub walk : Walk r.status t.status

-- Every run of the first map is one of the second, moved along the edges.
abbrev pub Advanced : List (String × Run) → List (String × Run) → Type 0
Advanced before after =
    (id : String) (r : Run)
    → lookup id before ≡ some r
    → (t : Run) × (lookup id after ≡ some t) × Moved r t

pub stay-Moved : (r : Run) → Moved r r
stay-Moved r = record { same_id = refl; same_spec = refl; same_created = refl; walk = stay }

pub Moved-trans : {r t u : Run} → Moved r t → Moved t u → Moved r u
Moved-trans m n = record {
  same_id = n.same_id ∙ m.same_id;
  same_spec = n.same_spec ∙ m.same_spec;
  same_created = n.same_created ∙ m.same_created;
  walk = Walk-trans m.walk n.walk;
}

pub stay-Advanced : (runs : List (String × Run)) → Advanced runs runs
stay-Advanced runs id r h = (r, h, stay-Moved r)

pub Advanced-trans : (a b c : List (String × Run)) → Advanced a b → Advanced b c → Advanced a c
Advanced-trans a b c first second id r h =
    let (t, found, m) = first id r h in
    let (u, again, n) = second id t found in (u, again, Moved-trans m n)

pub some-injective {ℓ} : {A : Type ℓ} {a b : A} → some a ≡ some b → a ≡ b
some-injective {a = a} e = ap (or_else a) e

-- Replacing a run by one that it moves to.
pub insert-Advanced :
    (runs : List (String × Run)) (id : String) (r t : Run)
    → lookup id runs ≡ some r
    → Moved r t
    → Advanced runs (insert id t runs)
insert-Advanced runs id r t found m asked old h = elim (Bool-cases (id == asked)) [
  | inl e ↦
      let there : lookup id runs ≡ some old =
        subst (λ k. lookup k runs ≡ some old) (sym ((==_iff id asked).0 e)) h in
      (
        t,
        rw (lookup-insert id asked t runs, e) refl,
        subst (λ x. Moved x t) (some-injective (sym found ∙ there)) m,
      )
  | inr e ↦ (old, rw (lookup-insert id asked t runs, e) h, stay-Moved old)
]

-- Adding a run.
pub insert-fresh-Advanced :
    (runs : List (String × Run)) (id : String) (t : Run)
    → lookup id runs ≡ none
    → Advanced runs (insert id t runs)
insert-fresh-Advanced runs id t fresh asked old h = elim (Bool-cases (id == asked)) [
  | inl e ↦
      let there : lookup id runs ≡ some old =
        subst (λ k. lookup k runs ≡ some old) (sym ((==_iff id asked).0 e)) h in
      absurd (ground (arith, fresh, there))
  | inr e ↦ (old, rw (lookup-insert id asked t runs, e) h, stay-Moved old)
]

edge-is_terminal : (a b : String) → is_terminal a ≡ true → edge a b ≡ false
unfolding edge
edge-is_terminal a b ended = elim (Bool-cases (a == "stopped")) [
  | inl e ↦ rw ((==_iff a "stopped").0 e) refl
  | inr e ↦ elim (Bool-cases (a == "completed")) [
    | inl f ↦ rw ((==_iff a "completed").0 f) refl
    | inr f ↦ rw ((==_iff a "failed").0 (ground arith)) refl
  ]
]

edge-created : (a b : String) → b ≡ "created" → edge a b ≡ false
unfolding edge
edge-created a b e = rw e (ground arith)

-- No edge leaves a terminal status.
pub Walk-is_terminal : {a b : String} → is_terminal a ≡ true → Walk a b → b ≡ a
Walk-is_terminal ended stay = refl
Walk-is_terminal {a = a} ended (move {mid = mid} {to = b} w e) =
    let same = Walk-is_terminal ended w in
    absurd (ground (arith, e, edge-is_terminal mid b (rw same ended)))

-- No edge leads to the first status.
pub Walk-created : {a b : String} → b ≡ "created" → Walk a b → a ≡ "created"
Walk-created h stay = h
Walk-created h (move {mid = mid} {to = b} w e) = absurd (ground (arith, e, edge-created mid b h))
