-- ===== src/Http/Senders.antt =====
-- proxyd/server.go: which raw transactions `rateLimitSender` lets pass.
use infra.Base.{
  ℕ, ◌≡◌, ◌⊎◌, ◌↔◌, inl, inr, refl, subst, ap, ◌∙◌, Bool, true, false, Option, none, some, String,
  List, [], ◌∷◌, In, here, there, ◌==◌, ==_iff, Bool-cases, Option-cases, arith,
}
use infra.Rpc.{Bytes, RpcReq, RpcErr}
use infra.Limits.{Limiter}
use infra.Http.Settings.{Server}
use infra.Http.Limit.{
  Lims, Decoded, failed, decoded, Txs, texts_of, only_param, Checked, rejected, keyed, or_invalid,
  sender_key, check_tx, check_sender, is_listed, is_allowed_chain_id, take_sender, after_take,
  take_checked, ask_sender, rate_limit_sender, ask_sender,
}

-- A chain ID is configured, or none is.
abbrev pub IsAllowed : List ℕ → ℕ → Type 0
IsAllowed ids id = (ids ≡ []) ⊎ In id ids

is_listed-In : (ids : List ℕ) (id : ℕ) → is_listed ids id ≡ true → In id ids
unfolding is_listed
is_listed-In [] id h = cc h
is_listed-In (c ∷ cs) id h = elim (Bool-cases (id == c)) [
  | inl y ↦ subst (λ x. In id (x ∷ cs)) ((==_iff id c).0 y) (here cs)
  | inr n ↦ there c cs (is_listed-In cs id (rw n at h))
]

In-is_listed : (ids : List ℕ) (id : ℕ) → In id ids → is_listed ids id ≡ true
unfolding is_listed
In-is_listed [] id m = elim m [ ]
In-is_listed (c ∷ cs) id (here _) = ground arith
In-is_listed (c ∷ cs) id (there _ _ m) = ground (arith, In-is_listed cs id m)

is_allowed_chain_id_iff :
    (ids : List ℕ) (id : ℕ) → (is_allowed_chain_id ids id ≡ true) ↔ IsAllowed ids id
unfolding is_allowed_chain_id
is_allowed_chain_id_iff [] id = ((λ _. inl refl), (λ _. refl))
is_allowed_chain_id_iff (c ∷ cs) id = (
  (λ h. inr (is_listed-In (c ∷ cs) id h)),
  (λ a. elim a [ inl e ↦ cc e | inr m ↦ In-is_listed (c ∷ cs) id m ]),
)

-- Where a value was decoded, the check goes on with it.
or_invalid-keyed :
    {A : Type 0} (d : Decoded A) (k : A → Checked) (key : String)
    → or_invalid d k ≡ keyed key
    → (a : A) × (d ≡ decoded a) × (k a ≡ keyed key)
or_invalid-keyed (failed e) k key h = cc h
or_invalid-keyed (decoded a) k key h = (a, refl, h)

only_param-decoded : (ps : List String) (p : String) → only_param ps ≡ decoded p → ps ≡ p ∷ []
unfolding only_param
only_param-decoded [] p h = cc h
only_param-decoded (q ∷ []) p h = cc h
only_param-decoded (q ∷ q' ∷ ps) p h = cc h

module _ {T : Type 0} (txs : Txs T) (ids : List ℕ) where
  -- The request has one parameter, which decodes to a transaction for an allowed chain with a
  -- sender, and the key is of its sender and nonce.
  unfoldable pub IsKeyOf : RpcReq → String → Type 0
  IsKeyOf req key =
      (text : String) × (bytes : Bytes) × (tx : T) × (from : String) × (texts_of req.params
        ≡ some (text ∷ []))
      × (txs.unmarshal_text text ≡ decoded bytes)
      × (txs.unmarshal_binary bytes ≡ decoded tx)
      × IsAllowed ids (txs.chain_id tx)
      × (txs.sender tx ≡ decoded from)
      × (sender_key txs ids from tx ≡ key)

  check_tx-keyed :
      (tx : T) (key : String)
      → check_tx txs ids tx ≡ keyed key
      → IsAllowed ids (txs.chain_id tx)
        × (from : String) × (txs.sender tx ≡ decoded from)
        × (sender_key txs ids from tx ≡ key)
  unfolding check_tx
  check_tx-keyed tx key h = elim (Bool-cases (is_allowed_chain_id ids (txs.chain_id tx))) [
    | inr n ↦ cc (rw (check_tx, n) at h)
    | inl y ↦
        let h' : or_invalid (txs.sender tx) (λ from. keyed (sender_key txs ids from tx))
            ≡ keyed key =
          rw (check_tx, y) at h in
        let (from, e, k) = or_invalid-keyed _ (λ from. keyed (sender_key txs ids from tx)) key h' in
        ((is_allowed_chain_id_iff ids (txs.chain_id tx)).0 y, from, e, cc k)
  ]

  check_sender-keyed :
      (req : RpcReq) (key : String) → check_sender txs ids req ≡ keyed key → IsKeyOf req key
  unfolding check_sender IsKeyOf
  check_sender-keyed req key h = elim (Option-cases (texts_of req.params)) [
    | inl e ↦ cc (rw (check_sender, e) at h)
    | inr (ps, e) ↦
        let (text, p, h₁) = or_invalid-keyed (only_param ps) _ key (rw (check_sender, e) at h) in
        let (bytes, q, h₂) = or_invalid-keyed (txs.unmarshal_text text) _ key h₁ in
        let (tx, r, h₃) = or_invalid-keyed (txs.unmarshal_binary bytes) _ key h₂ in
        let (allowed, from, w, k) = check_tx-keyed tx key h₃ in
        (text, bytes, tx, from, e ∙ ap some (only_param-decoded ps text p), q, r, allowed, w, k)
  ]

  keyed-check_sender :
      (req : RpcReq) (key : String) → IsKeyOf req key → check_sender txs ids req ≡ keyed key
  unfolding check_sender IsKeyOf only_param check_tx
  keyed-check_sender req key (text, bytes, tx, from, e, q, r, allowed, w, k) =
      let y = (is_allowed_chain_id_iff ids (txs.chain_id tx)).1 allowed in
      rw (check_sender, e, only_param, q, r, check_tx, y, w) (ap keyed k)

module _ {L T : Type 0} (lim : Limiter L) (instant : ℕ → ℕ) (txs : Txs T) (s : Server L) where
  -- The limiter lets the key pass, and leaves the limiters so.
  abbrev pub LetsPass : Option L → RpcReq → Lims L → Lims L → Type 0
  LetsPass o req ls ls' =
      (l : L) × (key : String) × (o ≡ some l)
      × IsKeyOf txs s.allowed_chain_ids req key
      × (take_sender lim instant key l ls ≡ (some true, ls'))

  after_take-none :
      (answer : Option Bool × Lims L) (ls' : Lims L)
      → after_take lim instant answer ≡ (none, ls')
      → answer ≡ (some true, ls')
  after_take-none (none, ls) ls' h = cc (ap (λ (x : Option RpcErr × Lims L). x.0) h)
  after_take-none (some true, ls) ls' h =
      ap (λ x. (some true, x)) (ap (λ (x : Option RpcErr × Lims L). x.1) h)
  after_take-none (some false, ls) ls' h = cc (ap (λ (x : Option RpcErr × Lims L). x.0) h)

  take_checked-none :
      (req : RpcReq) (c : Checked) (l : L) (ls ls' : Lims L)
      → check_sender txs s.allowed_chain_ids req ≡ c
      → take_checked lim instant c l ls ≡ (none, ls')
      → LetsPass (some l) req ls ls'
  unfolding take_checked
  take_checked-none req (rejected e) l ls ls' k h = cc (ap (λ (x : Option RpcErr × Lims L). x.0) h)
  take_checked-none req (keyed key) l ls ls' k h =
      (l, key, refl, check_sender-keyed txs s.allowed_chain_ids req key k, after_take-none _ ls' h)

  ask_sender-LetsPass :
      (req : RpcReq) (o : Option L) (ls ls' : Lims L)
      → ask_sender lim instant o (check_sender txs s.allowed_chain_ids req) ls ≡ (none, ls')
      → ((o ≡ none) × (ls ≡ ls')) ⊎ LetsPass o req ls ls'
  unfolding ask_sender
  ask_sender-LetsPass req none ls ls' h = inl (refl, ap (λ (x : Option RpcErr × Lims L). x.1) h)
  ask_sender-LetsPass req (some l) ls ls' h = inr (take_checked-none req _ l ls ls' refl h)

  LetsPass-ask_sender :
      (req : RpcReq) (o : Option L) (ls ls' : Lims L)
      → ((o ≡ none) × (ls ≡ ls')) ⊎ LetsPass o req ls ls'
      → ask_sender lim instant o (check_sender txs s.allowed_chain_ids req) ls ≡ (none, ls')
  unfolding ask_sender take_checked
  LetsPass-ask_sender req o ls ls' (inl (e, same)) = rw (e, ask_sender) (ap (λ x. (none, x)) same)
  LetsPass-ask_sender req o ls ls' (inr (l, key, e, k, t)) =
      rw (e, ask_sender, keyed-check_sender txs s.allowed_chain_ids req key k, take_checked, t) refl

  take_checked-unchanged :
      (req : RpcReq) (c : Checked) (l : L) (ls : Lims L)
      → check_sender txs s.allowed_chain_ids req ≡ c
      → ((key : String) × IsKeyOf txs s.allowed_chain_ids req key)
        ⊎ ((take_checked lim instant c l ls).1 ≡ ls)
  unfolding take_checked
  take_checked-unchanged req (rejected e) l ls k = inr refl
  take_checked-unchanged req (keyed key) l ls k =
      inl (key, check_sender-keyed txs s.allowed_chain_ids req key k)

  ask_sender-unchanged :
      (req : RpcReq) (o : Option L) (ls : Lims L)
      → ((key : String) × IsKeyOf txs s.allowed_chain_ids req key)
        ⊎ ((ask_sender lim instant o (check_sender txs s.allowed_chain_ids req) ls).1 ≡ ls)
  unfolding ask_sender
  ask_sender-unchanged req none ls = inr refl
  ask_sender-unchanged req (some l) ls = take_checked-unchanged req _ l ls refl

  -- `rateLimitSender` lets a request pass, and leaves the limiters as they then are, exactly if there
  -- is no limiter for senders and nothing changes, or if its only parameter decodes to a transaction
  -- for a chain that is allowed, with a sender, and the limiter, asked once, for the sender and the
  -- nonce, lets them pass. And either the request so decodes, for an allowed chain, or it leaves all
  -- the limiters as they were.
  pub rate_limit_sender_iff :
      (req : RpcReq) (ls ls' : Lims L)
      → ((rate_limit_sender lim instant txs s req ls ≡ (none, ls'))
          ↔ (((ls.sender_lim ≡ none) × (ls ≡ ls')) ⊎ LetsPass ls.sender_lim req ls ls'))
        × (((key : String) × IsKeyOf txs s.allowed_chain_ids req key)
            ⊎ ((rate_limit_sender lim instant txs s req ls).1 ≡ ls))
  unfolding rate_limit_sender
  rate_limit_sender_iff req ls ls' = (
    (ask_sender-LetsPass req ls.sender_lim ls ls', LetsPass-ask_sender req ls.sender_lim ls ls'),
    ask_sender-unchanged req ls.sender_lim ls,
  )
