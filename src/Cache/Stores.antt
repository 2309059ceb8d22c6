-- ===== src/Cache/Stores.antt =====
-- proxyd/cache.go: a cache returns nothing but what was put under the key; with compression or a
-- fallback it still does.
use infra.Base.{
  ◌≡◌, ◌⊎◌, inl, inr, refl, ◌∙◌, Option, none, some, String, str_eq, eq_iff, Bool-cases,
  Option-cases,
}
use infra.Cache.{Store, fallback_cache, decoded, compressed}

-- What a cache may return under a key: a value got is such, or "" for none; getting adds nothing,
-- and putting no more than the value.
pub record Keeps {S : Type 0} (c : Store S) : Type 1 where
  pub may : S → String → String → Type 0
  pub got : (k v : String) (s : S) → (c.get k s).0 ≡ some v → (v ≡ "") ⊎ may s k v
  pub on_get : (k j w : String) (s : S) → may (c.get k s).1 j w → may s j w
  pub on_put :
      (k v j w : String) (s : S) → may (c.put k v s).1 j w → may s j w ⊎ ((j ≡ k) × (w ≡ v))

module _ {S : Type 0} (encode : String → String) (decode : String → Option String)
    (decode_encode : (v : String) → decode (encode v) ≡ some v) (c : Store S)
    (keeps : Keeps c) where
  decoded_got :
      (k v : String) (s : S) (o : Option String)
      → (c.get k s).0 ≡ o
      → decoded decode o ≡ some v
      → (v ≡ "") ⊎ ((e : String) × keeps.may s k e × (decode e ≡ some v))
  unfolding decoded
  decoded_got k v s none e d = cc
  decoded_got k v s (some x) e d = elim (Bool-cases (str_eq x "")) [
    | inl y ↦ let h : some "" ≡ some v = rw y at d in inl (cc h)
    | inr n ↦
        let h : decode x ≡ some v = rw n at d in
        elim (keeps.got k x s e) [
          | inl z ↦ absurd (cc ((eq_iff x "").1 z, n))
          | inr m ↦ inr (x, m, h)
        ]
  ]

  -- With a compression that is undone by its decoder, what may be returned is what was put.
  pub compressed-Keeps : Keeps (compressed encode decode c)
  unfolding compressed
  compressed-Keeps = record {
    may = λ s k v. (e : String) × keeps.may s k e × (decode e ≡ some v);
    got = λ k v s e. decoded_got k v s (c.get k s).0 refl e;
    on_get = λ k j w s h. (h.0, keeps.on_get k j h.0 s h.1, h.2);
    on_put = λ k v j w s h. elim (keeps.on_put k (encode v) j h.0 s h.1) [
      | inl m ↦ inl (h.0, m, h.2)
      | inr q ↦ inr (q.0, cc (h.2, q.1, decode_encode v))
    ];
  }

  -- Where the cache below may return nothing, the one with compression may not.
  pub compressed_empty :
      (s : S) → ((k v : String) → ¬ keeps.may s k v) → (k v : String) → ¬ compressed-Keeps.may s k v
  unfolding compressed-Keeps
  compressed_empty s empty k v m = empty k m.0 m.1

module _ {S T : Type 0} (primary : Store S) (secondary : Store T) (first : Keeps primary)
    (second : Keeps secondary) where
  -- A cache with a fallback may return what either of the two may.
  pub fallback_cache-Keeps : Keeps (fallback_cache primary secondary)
  unfolding fallback_cache
  fallback_cache-Keeps = record { may = may; got = got; on_get = on_get; on_put = on_put }
    where
      may : S × T → String → String → Type 0
      may st k v = first.may st.0 k v ⊎ second.may st.1 k v

      got :
          (k v : String) (st : S × T)
          → ((fallback_cache primary secondary).get k st).0 ≡ some v
          → (v ≡ "") ⊎ may st k v
      got k v st e = elim (Option-cases (primary.get k st.0).0) [
        | inl n ↦
            let e' : (secondary.get k st.1).0 ≡ some v = rw n at e in
            elim (second.got k v st.1 e') [ inl z ↦ inl z | inr m ↦ inr (inr m) ]
        | inr (x, y) ↦
            let e' : some x ≡ some v = rw y at e in
            elim (first.got k v st.0 (y ∙ e')) [ inl z ↦ inl z | inr m ↦ inr (inl m) ]
      ]

      on_get :
          (k j w : String) (st : S × T)
          → may ((fallback_cache primary secondary).get k st).1 j w
          → may st j w
      on_get k j w st m = elim (Option-cases (primary.get k st.0).0) [
        | inl n ↦ from_second (rw n at m)
        | inr (x, y) ↦ from_first (rw y at m)
      ]
        where
          from_second :
              first.may (primary.get k st.0).1 j w ⊎ second.may (secondary.get k st.1).1 j w
              → may st j w
          from_second (inl h) = inl (first.on_get k j w st.0 h)
          from_second (inr h) = inr (second.on_get k j w st.1 h)

          from_first : first.may (primary.get k st.0).1 j w ⊎ second.may st.1 j w → may st j w
          from_first (inl h) = inl (first.on_get k j w st.0 h)
          from_first (inr h) = inr h

      on_put :
          (k v j w : String) (st : S × T)
          → may ((fallback_cache primary secondary).put k v st).1 j w
          → may st j w ⊎ ((j ≡ k) × (w ≡ v))
      on_put k v j w st m = elim (Bool-cases (primary.put k v st.0).0) [
        | inl y ↦ stored (rw y at m)
        | inr n ↦ both (rw n at m)
      ]
        where
          stored :
              first.may (primary.put k v st.0).1 j w ⊎ second.may st.1 j w
              → may st j w ⊎ ((j ≡ k) × (w ≡ v))
          stored (inl h) = elim (first.on_put k v j w st.0 h) [
            | inl a ↦ inl (inl a)
            | inr b ↦ inr b
          ]
          stored (inr h) = inl (inr h)

          both :
              first.may (primary.put k v st.0).1 j w ⊎ second.may (secondary.put k v st.1).1 j w
              → may st j w ⊎ ((j ≡ k) × (w ≡ v))
          both (inl h) = elim (first.on_put k v j w st.0 h) [ inl a ↦ inl (inl a) | inr b ↦ inr b ]
          both (inr h) = elim (second.on_put k v j w st.1 h) [ inl a ↦ inl (inr a) | inr b ↦ inr b ]
