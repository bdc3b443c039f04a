-- ===== src/Log/Surface.antt =====
-- What `Replay` of internal/replay/replay.go returns: the surface events that no later one removes.
use mathlib.Core.List.{append_assoc, append-nil}
use harness_trajectory_bench.Prelude.{
  false, leb, not, arith, String, ◌≡◌, refl, sym, ap, ◌∙◌, inl, inr, Bool, true, ◌&&◌, Option, none,
  some, List, [], ◌∷◌, ◌++◌, if◌then◌else◌, ◌!=◌, nat_eq, string_eq, bool_eq, list_eq, pair_eq,
  Bool-cases, is_nil, keep_if, ok, reject, >>=-eq-ok, >>-eq-ok, ok-injective,
}
use harness_trajectory_bench.Events.Types.{TrackedEvent, ReplaceSurfaceOp}
use harness_trajectory_bench.Events.Codec.{Codec}
use harness_trajectory_bench.Events.Helpers.{validate_surface_op}
use harness_trajectory_bench.Log.Replay.{
  kept, surface_change, apply_change, apply, replay_from, replay,
}

keep_if-append :
    {A : Type 0} (p : A → Bool) (xs ys : List A)
    → keep_if p (xs ++ ys) ≡ keep_if p xs ++ keep_if p ys
keep_if-append p [] ys = refl
keep_if-append p (x ∷ xs) ys = elim (Bool-cases (p x)) [
  | inl e ↦ rw e (ap (λ t. x ∷ t) (keep_if-append p xs ys))
  | inr e ↦ rw e (keep_if-append p xs ys)
]

keep_if-keep_if :
    {A : Type 0} (p q : A → Bool) (xs : List A)
    → keep_if p (keep_if q xs) ≡ keep_if (λ x. q x && p x) xs
keep_if-keep_if p q [] = refl
keep_if-keep_if p q (x ∷ xs) = elim (Bool-cases (q x)) [
  | inr e ↦ rw e (keep_if-keep_if p q xs)
  | inl e ↦ elim (Bool-cases (p x)) [
    | inl f ↦ rw (e, f) (ap (λ t. x ∷ t) (keep_if-keep_if p q xs))
    | inr f ↦ rw (e, f) (keep_if-keep_if p q xs)
  ]
]

keep_if-all : {A : Type 0} (xs : List A) → keep_if (λ x. true) xs ≡ xs
keep_if-all [] = refl
keep_if-all (x ∷ xs) = ap (λ t. x ∷ t) (keep_if-all xs)

-- The number of an event lies in a range, whose two ends count.
abbrev pub covers : ReplaceSurfaceOp → TrackedEvent → Bool
covers range prior = leb range.start prior.seq && leb prior.seq range.end

not-covers : (range : ReplaceSurfaceOp) (e : TrackedEvent) → kept range e ≡ not (covers range e)
not-covers range e = ground arith

keep_if-cong :
    {A : Type 0} (p q : A → Bool) (xs : List A)
    → ((x : A) → p x ≡ q x)
    → keep_if p xs ≡ keep_if q xs
keep_if-cong p q [] h = refl
keep_if-cong p q (x ∷ xs) h = rw (h x, keep_if-cong p q xs h) refl

-- The range that an event replaces: it has a surface operation, which is no text and has a range.
abbrev pub replaced_range : Bool → Option String → Option ReplaceSurfaceOp → Option ReplaceSurfaceOp
replaced_range true text range = none
replaced_range false (some op) range = none
replaced_range false none range = range

-- An event is left on the surface by a later one: that is no replacement, or one of another range.
abbrev pub outside : Option ReplaceSurfaceOp → TrackedEvent → Bool
outside none prior = true
outside (some range) prior = not (covers range prior)

abbrev leaves_by : Option (Option String × Option ReplaceSurfaceOp) → TrackedEvent → Bool
leaves_by none prior = true
leaves_by (some (some op, range)) prior = true
leaves_by (some (none, none)) prior = true
leaves_by (some (none, some range)) prior = not (covers range prior)

leaves_by-outside :
    (b : Bool) (text : Option String) (range : Option ReplaceSurfaceOp) (prior : TrackedEvent)
    → leaves_by (if b then none else some (text, range)) prior
      ≡ outside (replaced_range b text range) prior
leaves_by-outside true text range prior = refl
leaves_by-outside false (some op) range prior = refl
leaves_by-outside false none none prior = refl
leaves_by-outside false none (some range) prior = refl

abbrev own_by : TrackedEvent → Option (Option String × Option ReplaceSurfaceOp) → List TrackedEvent
own_by e none = []
own_by e (some change) = e ∷ []

abbrev own : TrackedEvent → List TrackedEvent
own e = if is_nil e.surface_op then [] else e ∷ []

module _ (json : Codec) where
  abbrev pub leaves : TrackedEvent → TrackedEvent → Bool
  leaves e = outside (
      replaced_range (is_nil e.surface_op) (json.text e.surface_op)
        (json.replace_range e.surface_op))

  abbrev pub survives : List TrackedEvent → TrackedEvent → Bool
  survives [] prior = true
  survives (e ∷ later) prior = leaves e prior && survives later prior

  -- The events with a surface operation that no later event removes, in the order of the log.
  abbrev pub visible : List TrackedEvent → List TrackedEvent
  visible [] = []
  visible (e ∷ later) =
      let rest = visible later in
      if is_nil e.surface_op then rest else if survives later e then e ∷ rest else rest

  change-ok :
      (surface : List TrackedEvent) (e : TrackedEvent)
      (o : Option (Option String × Option ReplaceSurfaceOp)) {s : List TrackedEvent}
      → apply_change json surface e o ≡ ok s
      → s ≡ keep_if (leaves_by o) surface ++ own_by e o
  change-ok surface e none h =
      sym (ok-injective h)
      ∙ sym (keep_if-all surface)
      ∙ sym (append-nil (keep_if (λ x. true) surface))
  change-ok surface e (some (some op, range)) h =
      let (_, g) = >>-eq-ok (reject (op != "append") "unsupported surface operation") _ h in
      sym (ok-injective g) ∙ ap (λ t. t ++ e ∷ []) (sym (keep_if-all surface))
  change-ok surface e (some (none, none)) h = cc
  change-ok surface e (some (none, some range)) h =
      sym (ok-injective h)
      ∙ ap (λ t. t ++ e ∷ []) (keep_if-cong (kept range) _ surface (not-covers range))

  own-change : (e : TrackedEvent) → own_by e (surface_change json e) ≡ own e
  own-change e = elim (Bool-cases (is_nil e.surface_op)) [ inl x ↦ rw x refl | inr x ↦ rw x refl ]

  apply-ok :
      (surface : List TrackedEvent) (e : TrackedEvent) {s : List TrackedEvent}
      → apply json surface e ≡ ok s
      → s ≡ keep_if (leaves e) surface ++ own e
  unfolding apply
  apply-ok surface e h =
      let (_, g) = >>-eq-ok (validate_surface_op json e.surface_op) _ h in
      change-ok surface e (surface_change json e) g
      ∙ ap (λ t. t ++ own_by e (surface_change json e))
          (keep_if-cong (leaves_by (surface_change json e)) (leaves e) surface
            (leaves_by-outside (is_nil e.surface_op) _ _))
      ∙ ap (λ t. keep_if (leaves e) surface ++ t) (own-change e)

  own-visible :
      (e : TrackedEvent) (later : List TrackedEvent)
      → keep_if (survives later) (own e) ++ visible later ≡ visible (e ∷ later)
  own-visible e later = elim (Bool-cases (is_nil e.surface_op)) [
    | inl x ↦ rw x refl
    | inr x ↦ elim (Bool-cases (survives later e)) [
      | inl y ↦ rw (x, y) refl
      | inr y ↦ rw (x, y) refl
    ]
  ]

  replay_from-visible :
      (surface log : List TrackedEvent) {s : List TrackedEvent}
      → replay_from json surface log ≡ ok s
      → s ≡ keep_if (survives log) surface ++ visible log
  unfolding replay_from
  replay_from-visible surface [] h =
      sym (ok-injective h)
      ∙ sym (keep_if-all surface)
      ∙ sym (append-nil (keep_if (λ x. true) surface))
  replay_from-visible surface (e ∷ log) h =
      let (next, p, g) = >>=-eq-ok (apply json surface e) _ h in
      replay_from-visible next log g
      ∙ ap (λ t. keep_if (survives log) t ++ visible log) (apply-ok surface e p)
      ∙ ap (λ t. t ++ visible log)
          (keep_if-append (survives log) (keep_if (leaves e) surface) (own e))
      ∙ append_assoc (keep_if (survives log) (keep_if (leaves e) surface))
          (keep_if (survives log) (own e)) (visible log)
      ∙ ap (λ t. t ++ (keep_if (survives log) (own e) ++ visible log))
          (keep_if-keep_if (survives log) (leaves e) surface)
      ∙ ap (λ t. keep_if (survives (e ∷ log)) surface ++ t) (own-visible e log)

  -- If `Replay` accepts a log, its surface holds exactly the events that have a surface operation
  -- and whose number no later replacement's range contains, in the order of the log.
  pub replay-visible :
      (log : List TrackedEvent) {surface : List TrackedEvent}
      → replay json log ≡ ok surface
      → surface ≡ visible log
  unfolding replay
  replay-visible log h = replay_from-visible [] log h
