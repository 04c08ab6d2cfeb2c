-- ===== src/Operator/EgressIp.antt =====
-- `GetEgressIp` of internal/services/initial_service.go, whose goroutine sets the variable `EgressIp`.
use Prim.Native.Char.{code}
use ror_agent.Prelude.{
  String, ◌≡◌, refl, false, has, Option, none, some, ForeignError, ◌⊎◌, inl, inr, eqb, ltb,
  if◌then◌else◌, Bool-cases,
}
use ror_agent.AgentClient.Egress.{Response}

-- strings.ReplaceAll(s, "\n", "")
unfoldable pub without_newlines : String → String
without_newlines String.[] = ""
without_newlines (String.◌∷◌ c s) =
    let rest = without_newlines s in if eqb (code c) 10 then rest else String.◌∷◌ c rest

abbrev pub body_or : String → ForeignError ⊎ String → String
body_or ip (inl e) = ip
body_or ip (inr body) = without_newlines body

abbrev pub kept : String → Response → String
kept ip r = if ltb 299 r.status then ip else body_or ip r.body

abbrev pub api_host : Option ForeignError → String
api_host none = "http://ip.nhn.no"
api_host (some e) = "https://api.ipify.org/"

module _ {W : Type 0} (get : String → W → (ForeignError ⊎ Response) × W) where
  abbrev pub second_reply : String → (ForeignError ⊎ Response) × W → String × W
  second_reply ip (inl e, w) = (ip, w)
  second_reply ip (inr r, w) = (kept ip r, w)

  abbrev pub first_reply : String → (ForeignError ⊎ Response) × W → String × W
  first_reply ip (inl e, w) = second_reply ip (get "https://api.ipify.org/" w)
  first_reply ip (inr r, w) = (kept ip r, w)

  -- `lookup` is what net.LookupIP says of ip.nhn.no.
  unfoldable pub get_egress_ip : Option ForeignError → String → W → String × W
  unfolding without_newlines
  get_egress_ip lookup ip w = first_reply ip (get (api_host lookup) w)

-- The text has no newline.
abbrev pub IsLine : String → Type 0
IsLine s = has 10 s ≡ false

without_newlines-IsLine : (s : String) → IsLine (without_newlines s)
unfolding without_newlines has
without_newlines-IsLine String.[] = refl
without_newlines-IsLine (String.◌∷◌ c s) = elim (Bool-cases (eqb (code c) 10)) [
  | inl y ↦ rw y (without_newlines-IsLine s)
  | inr n ↦ rw n (rw n (without_newlines-IsLine s))
]

body_or-IsLine : (ip : String) (body : ForeignError ⊎ String) → IsLine ip → IsLine (body_or ip body)
body_or-IsLine ip (inl e) h = h
body_or-IsLine ip (inr body) h = without_newlines-IsLine body

kept-IsLine : (ip : String) (r : Response) → IsLine ip → IsLine (kept ip r)
kept-IsLine ip r h = elim (Bool-cases (ltb 299 r.status)) [
  | inl y ↦ rw y h
  | inr n ↦ rw n (body_or-IsLine ip r.body h)
]

module _ {W : Type 0} (get : String → W → (ForeignError ⊎ Response) × W) where
  second_reply-IsLine :
      (ip : String) (r : (ForeignError ⊎ Response) × W)
      → IsLine ip
      → IsLine (second_reply get ip r).0
  second_reply-IsLine ip (inl e, w) h = h
  second_reply-IsLine ip (inr r, w) h = kept-IsLine ip r h

  first_reply-IsLine :
      (ip : String) (r : (ForeignError ⊎ Response) × W)
      → IsLine ip
      → IsLine (first_reply get ip r).0
  first_reply-IsLine ip (inl e, w) h = second_reply-IsLine ip (get "https://api.ipify.org/" w) h
  first_reply-IsLine ip (inr r, w) h = kept-IsLine ip r h

  -- If the address has no newline, it has none after GetEgressIp, whatever the hosts answer.
  pub get_egress_ip-IsLine :
      (lookup : Option ForeignError) (ip : String) (w : W)
      → has 10 ip ≡ false
      → has 10 (get_egress_ip get lookup ip w).0 ≡ false
  unfolding get_egress_ip
  get_egress_ip-IsLine lookup ip w h = first_reply-IsLine ip (get (api_host lookup) w) h
