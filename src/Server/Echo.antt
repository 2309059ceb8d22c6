-- ===== src/Server/Echo.antt =====
-- proxyd/backend.go: a group, for the tests, with one backend that echoes the requests and sends the
-- responses to a batch in the reverse order.
use mathlib.Core.List.{Perm}
use mathlib.Core.List.Perm
use infra.Base.{
  ◌≡◌, refl, sym, subst, ap, ◌∙◌, Bool, false, Option, none, some, String, List, [], ◌∷◌, ◌++◌, map,
  length, ◌==◌, arith,
}
use infra.Base.Call.{done, done-injective}
use infra.EthRpc.Strokes.{geth, plain_texts}
use infra.Hex.{tally}
use infra.Json.{Json}
use infra.Rpc.{RpcReq, RpcRes, RpcErr, res_ids, req_ids, new_rpc_res, err_internal}
use infra.Forward.SortOrder.{Distinct}
use infra.Forward.Send.{ForwardErr, Exchange, response, read, decode_body}
use infra.Forward.Attempts.{Target}
use infra.Forward.InOrder.{AreFor, IsHonest}
use infra.Server.{Reply}
use infra.Server.Taken.{IsProper}
use infra.Server.Backends.{group_reply, group_reply-IsProper}

abbrev pub echo : RpcReq → RpcRes
echo r = new_rpc_res r.id (Json.text r.method)

abbrev echoes : List RpcReq → List RpcRes
echoes [] = []
echoes (r ∷ reqs) = echoes reqs ++ echo r ∷ []

abbrev exchange : List RpcReq → Exchange
exchange [] = response 200 (read none (some []))
exchange (r ∷ []) = response 200 (read (some (echo r)) none)
exchange (r ∷ q ∷ reqs) = response 200 (read none (some (map some (echoes (r ∷ q ∷ reqs)))))

abbrev echo_backend : Target
echo_backend = record {
  name = "echo";
  max_retries = 1;
  receipts_target = "";
  exchange = λ i reqs. exchange reqs;
}

snoc-Perm : {A : Type 0} (xs : List A) (x : A) → Perm (xs ++ x ∷ []) (x ∷ xs)
snoc-Perm [] x = Perm.refl (x ∷ [])
snoc-Perm (y ∷ xs) x = Perm.trans (Perm.cons y (snoc-Perm xs x)) (Perm.swap x y xs)

res_ids-snoc : (rs : List RpcRes) (r : RpcRes) → res_ids (rs ++ r ∷ []) ≡ res_ids rs ++ r.id ∷ []
res_ids-snoc [] r = refl
res_ids-snoc (x ∷ rs) r = ap (λ l. x.id ∷ l) (res_ids-snoc rs r)

echoes-Perm : (reqs : List RpcReq) → Perm (res_ids (echoes reqs)) (req_ids reqs)
echoes-Perm [] = Perm.refl []
echoes-Perm (r ∷ reqs) =
    subst (λ l. Perm l (r.id ∷ req_ids reqs)) (sym (res_ids-snoc (echoes reqs) (echo r)))
      (Perm.trans (snoc-Perm (res_ids (echoes reqs)) r.id) (Perm.cons r.id (echoes-Perm reqs)))

map-some-injective : (xs ys : List RpcRes) → map some xs ≡ map some ys → xs ≡ ys
map-some-injective [] [] e = refl
map-some-injective [] (y ∷ ys) e = cc
map-some-injective (x ∷ xs) [] e = cc
map-some-injective (x ∷ xs) (y ∷ ys) e =
    let rest : xs ≡ ys = map-some-injective xs ys (cc e) in let first : x ≡ y = cc e in cc

-- What is decoded of a body is for the requests, where these responses are.
decoded-AreFor :
    (reqs : List RpcReq) (s : Option RpcRes) (b : Option (List (Option RpcRes)))
    (came : List RpcRes)
    → decode_body (length reqs == 1) s b ≡ done (map some came)
    → Perm (res_ids came) (req_ids reqs)
    → AreFor reqs (response 200 (read s b))
decoded-AreFor reqs s b came d p status s' b' sent e d' =
    let same : decode_body (length reqs == 1) s b ≡ done (map some sent) = again (cc e) (cc e) d' in
    subst (λ l. Perm (res_ids l) (req_ids reqs))
      (map-some-injective came sent (done-injective (sym d ∙ same))) p
  where
    again :
        {x x' : Option RpcRes} {y y' : Option (List (Option RpcRes))} {l : List (Option RpcRes)}
        → x ≡ x'
        → y ≡ y'
        → decode_body (length reqs == 1) x' y' ≡ done l
        → decode_body (length reqs == 1) x y ≡ done l
    again a c h = rw (a, c) h

echo_backend-IsHonest : IsHonest echo_backend
unfolding decode_body
echo_backend-IsHonest i [] = decoded-AreFor [] none (some []) [] refl (Perm.refl [])
echo_backend-IsHonest i (r ∷ []) =
    decoded-AreFor (r ∷ []) (some (echo r)) none (echo r ∷ []) refl (Perm.refl (r.id ∷ []))
echo_backend-IsHonest i (r ∷ q ∷ reqs) =
    let more : (length (r ∷ q ∷ reqs) == 1) ≡ false = ground arith in
    decoded-AreFor (r ∷ q ∷ reqs) none (some (map some (echoes (r ∷ q ∷ reqs))))
      (echoes (r ∷ q ∷ reqs)) (rw more refl) (echoes-Perm (r ∷ q ∷ reqs))

abbrev internal : ForwardErr → RpcErr
internal e = err_internal

-- The group of that backend.
abbrev pub echo_group : String → Bool → List RpcReq → Option Reply
echo_group group = group_reply tally geth plain_texts internal group (echo_backend ∷ [])

pub echo_group-IsProper :
    (group : String) (is_batch : Bool) (reqs : List RpcReq)
    → Distinct (req_ids reqs)
    → IsProper reqs (echo_group group is_batch reqs)
echo_group-IsProper group is_batch reqs d =
    group_reply-IsProper tally geth plain_texts internal group (echo_backend ∷ []) is_batch reqs
      (echo_backend-IsHonest, tt) d
