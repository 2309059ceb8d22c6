-- ===== src/Signer/Authorized.antt =====
-- op-signer/service: a digest is signed only for a client that is entitled to it.
use infra.Base.{
  ℕ, ◌≤◌, ◌≡◌, ◌≢◌, ◌⊎◌, inl, inr, refl, sym, subst, ap, Bool, true, false, not, ◌&&◌, Option, none,
  some, String, str_eq, eq_iff, List, [], ◌∷◌, In, here, there, ltb, Bool-cases, Option-cases,
  arith,
}
use infra.Signer.{Bytes, Answer, failed, ok, AuthConfig, Sdk, Provider}
use infra.Signer.Service.{
  fits_address, find_auth, get_auth_config_for_client, contains_normalized, check_to, check_value,
  sign, permit, sign_transaction,
}

find_auth-In :
    (auth : List AuthConfig) (client : String) (from : Option String) (ac : AuthConfig)
    → find_auth auth client from ≡ some ac
    → In ac auth × (ac.client_name ≡ client) × (fits_address from ac ≡ true)
unfolding find_auth
find_auth-In [] client from ac h = cc h
find_auth-In (x ∷ auth) client from ac h =
    elim (Bool-cases (str_eq x.client_name client && fits_address from x)) [
      | inl y ↦
          let e : some x ≡ some ac = rw y at h in
          let same : x ≡ ac = cc e in
          let both = and_both (str_eq x.client_name client) (fits_address from x) y in
          (
            subst (λ z. In z (x ∷ auth)) same (here auth),
            subst (λ (z : AuthConfig). z.client_name ≡ client) same
                ((eq_iff x.client_name client).0 both.0),
            subst (λ z. fits_address from z ≡ true) same both.1,
          )
      | inr n ↦
          let (m, named, fits) = find_auth-In auth client from ac (rw n at h) in
          (there x auth m, named, fits)
    ]
  where
    and_both : (a b : Bool) → (a && b) ≡ true → (a ≡ true) × (b ≡ true)
    and_both true b e = (refl, e)
    and_both false b e = cc e

-- The client has a name, and the entry is one of its own.
abbrev pub IsEntry : List AuthConfig → String → AuthConfig → Type 0
IsEntry auth client ac = (client ≢ "") × In ac auth × (ac.client_name ≡ client)

pub get_auth_config_for_client-IsEntry :
    (auth : List AuthConfig) (client : String) (from : Option String) (ac : AuthConfig)
    → get_auth_config_for_client auth client from ≡ some ac
    → IsEntry auth client ac × (fits_address from ac ≡ true)
unfolding get_auth_config_for_client
get_auth_config_for_client-IsEntry auth client from ac h = elim (Bool-cases (str_eq client "")) [
  | inl y ↦ let e : none ≡ some ac = rw y at h in cc e
  | inr n ↦
      let (m, named, fits) = find_auth-In auth client from ac (rw n at h) in
      (((λ e. cc (n, (eq_iff client "").1 e)), m, named), fits)
]

module _ {A T B : Type 0} (sdk : Sdk A T B) where
  contains_normalized-In :
      (as' : List String) (to : String)
      → contains_normalized sdk as' to ≡ true
      → (a : String) × In a as' × (sdk.equal_fold a to ≡ true)
  unfolding contains_normalized
  contains_normalized-In [] to h = cc h
  contains_normalized-In (a ∷ as') to h = elim (Bool-cases (sdk.equal_fold a to)) [
    | inl y ↦ (a, here as', y)
    | inr n ↦ let (b, m, e) = contains_normalized-In as' to (rw n at h) in (b, there a as' m, e)
  ]

  -- The entry names no addresses, or the transaction goes to one that it names.
  abbrev pub MaySendTo : AuthConfig → A → Type 0
  MaySendTo ac args =
      (ac.to_addresses ≡ [])
      ⊎ ((to : String) × (a : String) × (sdk.to_address args ≡ some to)
          × In a ac.to_addresses
          × (sdk.equal_fold a to ≡ true))

  -- The entry has no maximum, or the value is not above it.
  abbrev pub MaySpend : AuthConfig → A → Type 0
  MaySpend ac args =
      (ac.max_value ≡ "")
      ⊎ ((v : ℕ) × (max : ℕ) × (sdk.value args ≡ some v)
          × (sdk.decode_big ac.max_value ≡ some max)
          × (v ≤ max))

  check_to-MaySendTo :
      (ac : AuthConfig) (args : A) → check_to sdk ac args ≡ some true → MaySendTo ac args
  unfolding check_to
  check_to-MaySendTo ac args h = go ac.to_addresses refl h
    where
      go :
          (l : List String)
          → ac.to_addresses ≡ l
          → check_to sdk ac args ≡ some true
          → MaySendTo ac args
      go [] e h = inl e
      go (a ∷ as') e h = elim (Option-cases (sdk.to_address args)) [
        | inl n ↦ let k : none ≡ some true = rw (check_to, e, n) at h in cc k
        | inr (to, f) ↦
            let k : some (contains_normalized sdk (a ∷ as') to) ≡ some true =
              rw (check_to, e, f) at h in
            let (b, m, g) = contains_normalized-In (a ∷ as') to (cc k) in
            inr (to, b, f, subst (In b) (sym e) m, g)
      ]

  check_value-MaySpend :
      (ac : AuthConfig) (args : A) → check_value sdk ac args ≡ some true → MaySpend ac args
  unfolding check_value
  check_value-MaySpend ac args h = elim (Bool-cases (str_eq ac.max_value "")) [
    | inl y ↦ inl ((eq_iff ac.max_value "").0 y)
    | inr n ↦ elim (Option-cases (sdk.value args)) [
      | inl e ↦ let k : none ≡ some true = rw (check_value, n, e) at h in cc k
      | inr (v, e) ↦ elim (Option-cases (sdk.decode_big ac.max_value)) [
        | inl f ↦ let k : none ≡ some true = rw (check_value, n, e, f) at h in cc k
        | inr (max, f) ↦
            let k : some (not (ltb max v)) ≡ some true = rw (check_value, n, e, f) at h in
            inr (v, max, e, f, ground (arith, k))
      ]
    ]
  ]

  sign-asked :
      (provider : Provider) (key : String) (args : A) (t : Answer T) (asked : String × Bytes)
      → (sign sdk provider key args t).asked ≡ some asked
      → (tx : T) × (t ≡ ok tx) × (asked ≡ (key, sdk.hash tx))
  unfolding sign
  sign-asked provider key args (failed e) asked h = cc h
  sign-asked provider key args (ok tx) asked h = (tx, refl, cc h)

  permit-asked :
      (provider : Provider) (key : String) (args : A) (to value : Option Bool)
      (asked : String × Bytes)
      → (permit sdk provider key args to value).asked ≡ some asked
      → (to ≡ some true)
        × (value ≡ some true)
        × (tx : T) × (sdk.to_transaction args ≡ ok tx)
        × (asked ≡ (key, sdk.hash tx))
  unfolding permit
  permit-asked provider key args none value asked h = cc h
  permit-asked provider key args (some false) value asked h = cc h
  permit-asked provider key args (some true) none asked h = cc h
  permit-asked provider key args (some true) (some false) asked h = cc h
  permit-asked provider key args (some true) (some true) asked h =
      let (tx, made, same) = sign-asked provider key args (sdk.to_transaction args) asked h in
      (refl, refl, tx, made, same)

  -- Where `SignTransaction` has a digest signed with a key, the client has a name, and the
  -- configuration has an entry for the client with this key, whose addresses, if it names any, have
  -- that of the transaction up to case, and whose maximum, if it has one, is a number that the value
  -- does not exceed; and the digest is that of the transaction that the arguments describe.
  pub sign_transaction-MaySpend :
      (auth : List AuthConfig) (provider : Provider) (client : String) (args : A) (key : String)
      (digest : Bytes)
      → (sign_transaction sdk auth provider client args).asked ≡ some (key, digest)
      → (ac : AuthConfig) × IsEntry auth client ac
        × (ac.key_name ≡ key)
        × MaySendTo ac args
        × MaySpend ac args
        × (tx : T) × (sdk.to_transaction args ≡ ok tx)
        × (sdk.hash tx ≡ digest)
  unfolding sign_transaction
  sign_transaction-MaySpend auth provider client args key digest h =
      elim (Option-cases (get_auth_config_for_client auth client none)) [
        | inl e ↦ let k : none ≡ some (key, digest) = rw (sign_transaction, e) at h in cc k
        | inr (ac, e) ↦ elim (Option-cases (sdk.check args)) [
          | inr (m, f) ↦
              let k : none ≡ some (key, digest) = rw (sign_transaction, e, f) at h in cc k
          | inl f ↦
              let (to, value, tx, made, same) =
                permit-asked provider ac.key_name args (check_to sdk ac args)
                  (check_value sdk ac args) (key, digest) (rw (sign_transaction, e, f) at h) in
              let (entry, _) = get_auth_config_for_client-IsEntry auth client none ac e in
              (
                ac,
                entry,
                ap (λ (x : String × Bytes). x.0) (sym same),
                check_to-MaySendTo ac args to,
                check_value-MaySpend ac args value,
                tx,
                made,
                ap (λ (x : String × Bytes). x.1) (sym same),
              )
        ]
      ]
