-- ===== src/Secrets/Kept.antt =====
-- What a secret store keeps: security/secrets.ts.
use browse_gateway.Base.{
  ◌≡◌, refl, true, false, Option, none, some, List, [], ◌∷◌, ◌++◌, ltb, if◌then◌else◌, if_cases,
  length, ◌==◌, All, All-append,
}
use browse_gateway.Base.Text.{Text, is_empty}
use browse_gateway.Base.Sets.{has, set_add}
use browse_gateway.Secrets.{
  Refusal, place, assert_redactable_secret, reserved_redaction_markers, SecretKey, secret_keys,
  Secret, SecretStore, Stored, load, reload, add_redactable, add_redactable_credential, get,
  empty_store,
}
use browse_gateway.Secrets.Redact.Hides.{has-set_add, has-set_add_self}

-- Every value that one set has, the other has.
abbrev pub Keeps : List Text → List Text → Type 0
Keeps vs ws = (y : Text) → has vs y ≡ true → has ws y ≡ true

-- The current values can be redacted, and are in the redaction set.
abbrev pub IsCovered : List Text → Secret → Type 0
IsCovered vs e = (has vs e.value ≡ true) × (assert_redactable_secret e.value ≡ none)

abbrev pub AreCovered : SecretStore → Type 0
AreCovered s = All (IsCovered s.redactable) s.values

module _ (vs ws : List Text) (k : Keeps vs ws) where
  still-IsCovered : (es : List Secret) → All (IsCovered vs) es → All (IsCovered ws) es
  still-IsCovered [] a = a
  still-IsCovered (e ∷ es) a = ((k e.value a.0.0, a.0.1), still-IsCovered es a.1)

-- A step leaves the current values covered, and forgets no value.
abbrev pub Retains : SecretStore → Stored → Type 0
Retains s x = AreCovered x.store × Keeps s.redactable x.store.redactable

-- One more value in the redaction set.
abbrev with_value : SecretStore → Text → SecretStore
with_value s v = record s { redactable = set_add s.redactable v }

added-Keeps : (s : SecretStore) (v : Text) → Keeps s.redactable (set_add s.redactable v)
added-Keeps s v y h = has-set_add s.redactable v y h

then-Retains : (s : SecretStore) (v : Text) (x : Stored) → Retains (with_value s v) x → Retains s x
then-Retains s v x r = (r.0, λ y h. r.1 y (added-Keeps s v y h))

-- A refused value ends the step.
checked :
    (s : SecretStore) (v : Text) (o : Option Refusal)
    → assert_redactable_secret v ≡ o
    → AreCovered s
    → (x : Stored) → (assert_redactable_secret v ≡ none → Retains s x)
    → Retains s (elim o [ some why ↦ record { store = s; thrown = some why } | none ↦ x ])
checked s v none e c x f = f e
checked s v (some why) e c x f = (c, λ y h. h)

load-Retains :
    (s : SecretStore) (source : SecretKey → Option Text) (ks : List SecretKey) (next : List Secret)
    → AreCovered s
    → All (IsCovered s.redactable) next
    → Retains s (load s source ks next)
unfolding load
load-Retains s source [] next c n = (n, λ y h. h)
load-Retains s source (k ∷ ks) next c n =
    elim (source k)
      as (λ o. Retains s (elim o [
        | none ↦ load s source ks next
        | some v ↦ if is_empty v then load s source ks next else elim (assert_redactable_secret v) [
          | some why ↦ record { store = s; thrown = some why }
          | none ↦
              load (record s { redactable = set_add s.redactable v }) source ks
                (next ++ record { key = k; value = v } ∷ [])
        ]
      ])) [
        | none ↦ load-Retains s source ks next c n
        | some v ↦
            if_cases {A = Stored} (Retains s) (is_empty v) _ _
              (λ absent. load-Retains s source ks next c n)
              (λ there.
                checked s v (assert_redactable_secret v) refl c
                  (load (with_value s v) source ks (next ++ record { key = k; value = v } ∷ []))
                  λ fine.
                    then-Retains s v
                      (load (with_value s v) source ks (next ++ record { key = k; value = v } ∷ []))
                      (load-Retains (with_value s v) source ks
                        (next ++ record { key = k; value = v } ∷ [])
                        (still-IsCovered s.redactable (set_add s.redactable v) (added-Keeps s v)
                          s.values c)
                        (All-append (IsCovered (set_add s.redactable v)) next
                          (record { key = k; value = v } ∷ [])
                          (still-IsCovered s.redactable (set_add s.redactable v) (added-Keeps s v)
                            next n)
                          ((has-set_add_self s.redactable v, fine), tt))))
      ]

add_redactable-Retains :
    (s : SecretStore) (vs : List Text) → AreCovered s → Retains s (add_redactable s vs)
unfolding add_redactable
add_redactable-Retains s [] c = (c, λ y h. h)
add_redactable-Retains s (v ∷ vs) c =
    if_cases {A = Stored} (Retains s) (is_empty v) _ _ (λ absent. add_redactable-Retains s vs c)
      λ there.
        if_cases {A = Stored} (Retains s) (has reserved_redaction_markers v) _ _
          (λ marked. (c, λ y h. h))
          (λ fine. then-Retains s v (add_redactable (with_value s v) vs) (
            add_redactable-Retains (with_value s v) vs
              (still-IsCovered s.redactable (set_add s.redactable v) (added-Keeps s v) s.values c)))

add_redactable_credential-Retains :
    (s : SecretStore) (vs : List Text) → AreCovered s → Retains s (add_redactable_credential s vs)
unfolding add_redactable_credential
add_redactable_credential-Retains s [] c = (c, λ y h. h)
add_redactable_credential-Retains s (v ∷ vs) c =
    if_cases {A = Stored} (Retains s) (is_empty v) _ _
      (λ absent. add_redactable_credential-Retains s vs c)
      λ there.
        checked s v (assert_redactable_secret v) refl c
          (add_redactable_credential (with_value s v) vs)
          λ fine. then-Retains s v (add_redactable_credential (with_value s v) vs) (
            add_redactable_credential-Retains (with_value s v) vs
              (still-IsCovered s.redactable (set_add s.redactable v) (added-Keeps s v) s.values c))

-- What is done to a store.
pub data SecretOp : Type 0 where
  reloads : (SecretKey → Option Text) → SecretOp
  registers : List Text → SecretOp
  registers_credentials : List Text → SecretOp

unfoldable pub perform : SecretStore → SecretOp → Stored
perform s (reloads source) = reload s source
perform s (registers vs) = add_redactable s vs
perform s (registers_credentials vs) = add_redactable_credential s vs

-- A call that throws leaves the store as it was when it threw.
unfoldable pub perform_all : SecretStore → List SecretOp → SecretStore
perform_all s [] = s
perform_all s (op ∷ ops) = perform_all (perform s op).store ops

pub perform-Retains : (s : SecretStore) (op : SecretOp) → AreCovered s → Retains s (perform s op)
unfolding perform reload
perform-Retains s (reloads source) c = load-Retains s source secret_keys [] c tt
perform-Retains s (registers vs) c = add_redactable-Retains s vs c
perform-Retains s (registers_credentials vs) c = add_redactable_credential-Retains s vs c

pub perform_all-Retains :
    (s : SecretStore) (ops : List SecretOp)
    → AreCovered s
    → AreCovered (perform_all s ops) × Keeps s.redactable (perform_all s ops).redactable
unfolding perform_all
perform_all-Retains s [] c = (c, λ y h. h)
perform_all-Retains s (op ∷ ops) c =
    let (c', k) = perform-Retains s op c in
    let (c'', k') = perform_all-Retains (perform s op).store ops c' in (c'', λ y h. k' y (k y h))

pub empty_store-AreCovered : AreCovered empty_store
unfolding empty_store
empty_store-AreCovered = tt

redactable-length : (v : Text) → assert_redactable_secret v ≡ none → ltb (length v) 3 ≡ false
unfolding assert_redactable_secret
redactable-length v =
    if_cases {A = Option Refusal} (λ o. o ≡ none → ltb (length v) 3 ≡ false) (ltb (length v) 3) _ _
      (λ short e. absurd (cc e)) (λ long e. long)

-- A value that the store gives out is in the redaction set and long enough to be redacted.
pub given :
    (vs : List Text) (k : SecretKey) (es : List Secret) (v : Text)
    → All (IsCovered vs) es
    → get k es ≡ some v
    → (has vs v ≡ true) × (ltb (length v) 3 ≡ false)
unfolding get
given vs k [] v a h = absurd (cc h)
given vs k (e ∷ es) v a h =
    if_cases {A = Option Text} (λ o. o ≡ some v → (has vs v ≡ true) × (ltb (length v) 3 ≡ false))
      (place e.key == place k) _ _ (λ here h'. first e.value v a.0 h')
      (λ later h'. given vs k es v a.1 h') h
  where
    first :
        (u v : Text)
        → (has vs u ≡ true) × (assert_redactable_secret u ≡ none)
        → ◌≡◌ {A = Option Text} (some u) (some v)
        → (has vs v ≡ true) × (ltb (length v) 3 ≡ false)
    first u v c h' = (cc (c.0, h'), cc (redactable-length u c.1, h'))
