-- ===== src/Cache/Fresh.antt =====
-- A cached tenant is found under each of its names until its time is over or a name is invalidated.
use birthub_360_innovation.Base.{
  ℕ, ◌+◌, ◌*◌, ◌<◌, String, Bool, true, false, ◌&&◌, ◌||◌, not, List, [], ◌∷◌, Option, none, some,
  ◌≡◌, refl, ◌∙◌, ◌⊎◌, inl, inr, arith, ltb, Bool-cases, str_eq, eq_iff, contains, Dict,
}
use birthub_360_innovation.Base.Result.{ok}
use birthub_360_innovation.Cache.{Entry, Client}
use birthub_360_innovation.Cache.Store.{
  memory_del, memory_set, store_set, or_fallback, write_cache_value,
}
use birthub_360_innovation.Cache.Refine.{
  view, in_memory_state, read-in_memory, delete-in_memory, view-memory_set, view-memory_del,
}
use birthub_360_innovation.Cache.Tenant.{
  CachedTenant, Language, tenant_cache_ttl_seconds, build_tenant_cache_key,
  build_cache_keys_from_tenant, write_all, cache_tenant, parse_tenant, get_cached_tenant,
  reference_keys, invalidate_tenant_cache,
}

unfoldable set_all : ℕ → List String → String → Dict Entry → Dict Entry
set_all time [] payload m = m
set_all time (key ∷ keys) payload m =
    set_all time keys payload (memory_set time key payload tenant_cache_ttl_seconds m)

view-set_all :
    (time : ℕ) (keys : List String) (payload : String) (m : Dict Entry) (key : String) (now : ℕ)
    → now < time + tenant_cache_ttl_seconds * 1000
    → (contains keys key ≡ true) ⊎ (view m key now ≡ some payload)
    → view (set_all time keys payload m) key now ≡ some payload
unfolding set_all
view-set_all time [] payload m key now early (inl there) = cc
view-set_all time [] payload m key now early (inr held) = held
view-set_all time (other ∷ keys) payload m key now early which =
    let written = view-memory_set time other payload tenant_cache_ttl_seconds m key now in
    view-set_all time keys payload (memory_set time other payload tenant_cache_ttl_seconds m) key
      now early
      (elim (Bool-cases (str_eq other key)) [
        | inl same ↦
            let live : ltb now (time + tenant_cache_ttl_seconds * 1000) ≡ true =
              ground (arith, early) in
            inr (written ∙ rw (same, live))
        | inr apart ↦ elim which [
          | inl there ↦ inl (ground (arith, there, apart))
          | inr held ↦ inr (written ∙ rw apart held)
        ]
      ])

module _ {R : Type 0} (lang : Language) (client : Client R) where
  write_all-in_memory :
      (time : ℕ) (keys : List String) (payload : String) (strict : Bool) (m : Dict Entry)
      → write_all lang client time keys payload (in_memory_state client strict m)
        ≡ (in_memory_state client strict (set_all time keys payload m), ok tt)
  unfolding write_all set_all write_cache_value store_set or_fallback
  write_all-in_memory time [] payload strict m = refl
  write_all-in_memory time (key ∷ keys) payload strict m =
      let next =
        write_all-in_memory time keys payload strict
          (memory_set time key payload tenant_cache_ttl_seconds m) in
      next

  get-in_memory :
      (time : ℕ) (reference : String) (strict : Bool) (m : Dict Entry)
      → (get_cached_tenant lang client time reference (in_memory_state client strict m)).1
        ≡ ok (parse_tenant lang client (view m (build_tenant_cache_key lang reference) time))
  unfolding get_cached_tenant
  get-in_memory time reference strict m =
      rw (read-in_memory client time (build_tenant_cache_key lang reference) strict m) refl

  -- If `JSON.parse` reads the text that `JSON.stringify` writes of the tenant, that text is not empty, and
  -- neither are the ids of the tenant, then a tenant that was written to the store in memory is read, at
  -- any time within five minutes, by every reference that has the key of one of its names.
  pub get_cached_tenant-cache_tenant :
      (time later : ℕ) (tenant : CachedTenant) (reference : String) (strict : Bool) (m : Dict Entry)
      → lang.parse (lang.stringify tenant) ≡ some tenant
      → str_eq (lang.stringify tenant) "" ≡ false
      → str_eq tenant.id "" ≡ false
      → str_eq tenant.tenant_id "" ≡ false
      → contains (build_cache_keys_from_tenant lang tenant) (build_tenant_cache_key lang reference)
        ≡ true
      → later < time + tenant_cache_ttl_seconds * 1000
      → (get_cached_tenant lang client later reference
          (cache_tenant lang client time tenant (in_memory_state client strict m)).0).1
        ≡ ok (some tenant)
  unfolding cache_tenant parse_tenant
  get_cached_tenant-cache_tenant time later tenant reference strict m parses text own_id tenants_id
        named early =
      let keys = build_cache_keys_from_tenant lang tenant in
      let payload = lang.stringify tenant in
      let held =
        view-set_all time keys payload m (build_tenant_cache_key lang reference) later early
          (inl named) in
      rw (write_all-in_memory time keys payload strict m, cache_tenant)
        (get-in_memory later reference strict (set_all time keys payload m)
          ∙ rw (held, text, parses, own_id, tenants_id) refl)

  -- Some reference of the list that is not blank has the key.
  abbrev pub has_key : List (Option String) → String → Bool
  has_key [] key = false
  has_key (none ∷ references) key = has_key references key
  has_key (some reference ∷ references) key =
      (not (str_eq (lang.trim reference) "") && str_eq (build_tenant_cache_key lang reference) key)
      || has_key references key

  reference_keys_lem :
      (references : List (Option String)) (seen : List String) (key : String)
      → has_key references key ≡ true
      → (contains (reference_keys lang client references seen) key || contains seen key) ≡ true
  unfolding reference_keys
  reference_keys_lem [] seen key h = cc
  reference_keys_lem (none ∷ references) seen key h = reference_keys_lem references seen key h
  reference_keys_lem (some reference ∷ references) seen key h =
      let own = build_tenant_cache_key lang reference in
      ground (
        arith,
        h,
        reference_keys_lem references seen key,
        reference_keys_lem references (own ∷ seen) key,
        eq_iff own key,
      )

  -- After an invalidation, the store in memory has no tenant, at any time, for a reference that has the key
  -- of one of the references that are not blank.
  pub get_cached_tenant-invalidate :
      (time later : ℕ) (references : List (Option String)) (reference : String) (strict : Bool)
      (m : Dict Entry)
      → has_key references (build_tenant_cache_key lang reference) ≡ true
      → (get_cached_tenant lang client later reference
          (invalidate_tenant_cache lang client time references
            (in_memory_state client strict m)).0).1
        ≡ ok none
  unfolding invalidate_tenant_cache parse_tenant
  get_cached_tenant-invalidate time later references reference strict m named =
      let keys = reference_keys lang client references [] in
      let key = build_tenant_cache_key lang reference in
      let there : contains keys key ≡ true =
        ground (arith, reference_keys_lem references [] key named) in
      rw (delete-in_memory client time keys strict m, invalidate_tenant_cache)
        (get-in_memory later reference strict (memory_del keys m).0
          ∙ rw (view-memory_del keys m key later, there) refl)
