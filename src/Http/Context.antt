-- ===== src/Http/Context.antt =====
-- proxyd/server.go: `populateContext`; proxyd/backend.go: `stripXFF`.
use Prim.Native.Char.{Char}
use infra.Base.{
  Bool, false, ◌||◌, Option, none, some, String, str_eq, List, [], ◌∷◌, length, ◌==◌, if◌then◌else◌,
}
use infra.Base.Dict.{Dict, lookup}
use infra.Http.{HttpRequest}

abbrev char_text : Char → String
char_text c = String.◌∷◌ c ""

-- `strings.Split`, with a separator of one character: the first part and the others.
unfoldable pub split : String → String → String × List String
split sep String.[] = ("", [])
split sep (String.◌∷◌ c s) =
    let (first, others) = split sep s in
    if str_eq (char_text c) sep then ("", first ∷ others) else (String.◌∷◌ c first, others)

-- The white space of Unicode, which `strings.TrimSpace` takes away.
abbrev white_space : String
white_space =
    "\t\n\u{b}\u{c}\r \u{85}\u{a0}\u{1680}\u{2000}\u{2001}\u{2002}\u{2003}\u{2004}\u{2005}\u{2006}\u{2007}\u{2008}\u{2009}\u{200a}\u{2028}\u{2029}\u{202f}\u{205f}\u{3000}"

abbrev holds : String → Char → Bool
holds String.[] c = false
holds (String.◌∷◌ d s) c = str_eq (char_text d) (char_text c) || holds s c

unfoldable is_space : Char → Bool
is_space c = holds white_space c

unfoldable pub trim_left : String → String
unfolding is_space
trim_left String.[] = ""
trim_left (String.◌∷◌ c s) = let rest = trim_left s in if is_space c then rest else String.◌∷◌ c s

unfoldable pub trim_right : String → String
unfolding is_space
trim_right String.[] = ""
trim_right (String.◌∷◌ c s) =
    let rest = trim_right s in
    if str_eq rest "" then (if is_space c then "" else char_text c) else String.◌∷◌ c rest

-- `stripXFF`
unfoldable pub strip_xff : String → String
unfolding split trim_left trim_right
strip_xff xff = trim_right (trim_left (split "," xff).0)

-- The values of the context.
pub record Context : Type 0 where
  pub x_forwarded_for : String
  pub op_tx_proxy_auth : Option String
  pub auth : Option String

-- The address of the client, without its port: "" unless the address has one colon.
unfoldable pub remote_ip : String × List String → String
remote_ip (host, port ∷ []) = host
remote_ip _ = ""

unfoldable pub forwarded_for : HttpRequest → String
unfolding split remote_ip
forwarded_for r =
    if str_eq r.forwarded_for "" then remote_ip (split ":" r.remote_addr) else r.forwarded_for

-- `s.authenticatedPaths[authorization]`, "" where it is not there.
unfoldable pub authenticated : Dict String → String → String
unfolding lookup
authenticated paths authorization = elim (lookup authorization paths) [ none ↦ "" | some a ↦ a ]

-- `populateContext`: `none` is the answer 401.
unfoldable pub populate_context : Dict String → HttpRequest → Option Context
unfolding forwarded_for authenticated
populate_context paths r =
    let context : Option String → Context = λ auth. record {
      x_forwarded_for = forwarded_for r;
      op_tx_proxy_auth = (if str_eq r.op_tx_proxy_auth "" then none else some r.op_tx_proxy_auth);
      auth = auth;
    } in
    if length paths == 0
    then some (context none)
    else if str_eq r.authorization "" || str_eq (authenticated paths r.authorization) ""
    then none
    else some (context (some (authenticated paths r.authorization)))
