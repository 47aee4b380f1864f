-- ===== src/Secrets/Reload.antt =====
-- What a reload of secrets comes to: `reload` of security/secrets.ts.
use browse_gateway.Base.{
  ◌≡◌, refl, sym, ap, ◌∙◌, ◌⊎◌, inl, inr, Bool, true, false, Option, none, some, List, [], ◌∷◌,
  ◌++◌, arith, if◌then◌else◌, ◌==◌,
}
use browse_gateway.Base.Text.{Text, is_empty}
use browse_gateway.Base.Sets.{set_add}
use browse_gateway.Secrets.{
  Refusal, assert_redactable_secret, SecretKey, proxy_url, proxy_username, proxy_password,
  captcha_api_key, brave_search_api_key, vault_key, secret_keys, place, Secret, SecretStore, Stored,
  load, reload, get,
}

-- `a ?? b`.
abbrev or_other : Option Text → Option Text → Option Text
or_other none b = b
or_other (some a) b = some a

-- A text that is set and not empty.
abbrev pub non_empty : Option Text → Option Text
non_empty none = none
non_empty (some v) = if is_empty v then none else some v

abbrev wanted : SecretKey → (SecretKey → Option Text) → List SecretKey → Option Text
wanted k source [] = none
wanted k source (j ∷ js) =
    or_other (if place j == place k then non_empty (source j) else none) (wanted k source js)

get-snoc :
    (k : SecretKey) (es : List Secret) (e : Secret)
    → get k (es ++ e ∷ [])
      ≡ or_other (get k es) (if place e.key == place k then some e.value else none)
unfolding get
get-snoc k [] e = refl
get-snoc k (x ∷ es) e = ground (arith, get-snoc k es e)

or_none : (a : Option Text) → or_other a none ≡ a
or_none none = refl
or_none (some v) = refl

or_other_assoc : (a b c : Option Text) → or_other (or_other a b) c ≡ or_other a (or_other b c)
or_other_assoc none b c = refl
or_other_assoc (some a) b c = refl

-- Either nothing was refused, and the values are those that were read; or something was, and the
-- values are the old ones.
abbrev Loaded : SecretStore → (SecretKey → Option Text) → Stored → Type 0
Loaded s wants x =
    ((x.thrown ≡ none) × ((k : SecretKey) → get k x.store.values ≡ wants k))
    ⊎ ((why : Refusal) × (x.thrown ≡ some why) × (x.store.values ≡ s.values))

same-Loaded :
    (s : SecretStore) (f g : SecretKey → Option Text) (x : Stored)
    → ((k : SecretKey) → f k ≡ g k)
    → Loaded s f x
    → Loaded s g x
same-Loaded s f g x e (inl (t, h)) = inl (t, λ k. h k ∙ e k)
same-Loaded s f g x e (inr r) = inr r

checked-Loaded :
    (s : SecretStore) (wants : SecretKey → Option Text) (o : Option Refusal) (x : Stored)
    → Loaded s wants x
    → Loaded s wants (elim o [ some why ↦ record { store = s; thrown = some why } | none ↦ x ])
checked-Loaded s wants none x h = h
checked-Loaded s wants (some why) x h = inr (why, refl, refl)

load-Loaded :
    (s : SecretStore) (source : SecretKey → Option Text) (ks : List SecretKey) (next : List Secret)
    → Loaded s (λ k. or_other (get k next) (wanted k source ks)) (load s source ks next)
unfolding load
load-Loaded s source [] next = inl (refl, λ k. sym (or_none (get k next)))
load-Loaded s source (j ∷ ks) next =
    elim (source j)
      as (λ o. Loaded s (wants_with o) (elim o [
        | none ↦ load s source ks next
        | some v ↦ if is_empty v then load s source ks next else elim (assert_redactable_secret v) [
          | some why ↦ record { store = s; thrown = some why }
          | none ↦
              load (record s { redactable = set_add s.redactable v }) source ks
                (next ++ record { key = j; value = v } ∷ [])
        ]
      ])) [
        | none ↦
            same-Loaded s _ (wants_with none) (load s source ks next) unset
              (load-Loaded s source ks next)
        | some v ↦
            elim (is_empty v)
              as (λ b.
                Loaded s
                  (λ k. or_other (get k next) (
                    or_other (if place j == place k then if b then none else some v else none)
                      (wanted k source ks)))
                  (if b then load s source ks next else elim (assert_redactable_secret v) [
                    | some why ↦ record { store = s; thrown = some why }
                    | none ↦
                        load (record s { redactable = set_add s.redactable v }) source ks
                          (next ++ record { key = j; value = v } ∷ [])
                  ])) [
                    | true ↦
                        same-Loaded s _ (wants_with none) (load s source ks next) unset
                          (load-Loaded s source ks next)
                    | false ↦
                        checked-Loaded s _ (assert_redactable_secret v)
                          (load (record s { redactable = set_add s.redactable v }) source ks
                            (next ++ record { key = j; value = v } ∷ []))
                          (same-Loaded s _
                            (λ k. or_other (get k next) (
                              or_other (if place j == place k then some v else none)
                                (wanted k source ks)))
                            (load (record s { redactable = set_add s.redactable v }) source ks
                              (next ++ record { key = j; value = v } ∷ []))
                            (set_to v)
                            (load-Loaded (record s { redactable = set_add s.redactable v }) source
                              ks (next ++ record { key = j; value = v } ∷ [])))
                  ]
      ]
  where
    wants_with : Option Text → SecretKey → Option Text
    wants_with o k =
        or_other (get k next)
          (or_other (if place j == place k then non_empty o else none) (wanted k source ks))

    no_value :
        (b : Bool) (a w : Option Text)
        → or_other a w ≡ or_other a (or_other (if b then none else none) w)
    no_value true a w = refl
    no_value false a w = refl

    unset : (k : SecretKey) → or_other (get k next) (wanted k source ks) ≡ wants_with none k
    unset k = no_value (place j == place k) (get k next) (wanted k source ks)

    set_to :
        (v : Text) (k : SecretKey)
        → or_other (get k (next ++ record { key = j; value = v } ∷ [])) (wanted k source ks)
          ≡ or_other
              (get k next)
              (or_other (if place j == place k then some v else none) (wanted k source ks))
    set_to v k =
        ap (λ o. or_other o (wanted k source ks)) (get-snoc k next (record { key = j; value = v }))
        ∙ or_other_assoc (get k next) (if place j == place k then some v else none)
            (wanted k source ks)

-- A reload either refuses nothing, and every key then has the value that the source gives it, if that
-- is not empty, and no other; or it throws, and every key keeps its value.
pub reload_loads :
    (s : SecretStore) (source : SecretKey → Option Text)
    → ((reload s source).thrown ≡ none)
        × ((k : SecretKey) → get k (reload s source).store.values ≡ non_empty (source k))
      ⊎ ((why : Refusal) × ((reload s source).thrown ≡ some why)
          × ((reload s source).store.values ≡ s.values))
unfolding reload get
reload_loads s source =
    same-Loaded s (λ k. wanted k source secret_keys) (λ k. non_empty (source k))
      (load s source secret_keys []) all_read (load-Loaded s source secret_keys [])
  where
    all_read : (k : SecretKey) → wanted k source secret_keys ≡ non_empty (source k)
    all_read proxy_url = or_none (non_empty (source proxy_url))
    all_read proxy_username = or_none (non_empty (source proxy_username))
    all_read proxy_password = or_none (non_empty (source proxy_password))
    all_read captcha_api_key = or_none (non_empty (source captcha_api_key))
    all_read brave_search_api_key = or_none (non_empty (source brave_search_api_key))
    all_read vault_key = or_none (non_empty (source vault_key))
