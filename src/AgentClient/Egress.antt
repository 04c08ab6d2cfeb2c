-- ===== src/AgentClient/Egress.antt =====
-- `GetEgressIP` and `GetEgressIp` of common/pkg/clients/clusteragentclient/clusteragentclient.go.
use Prim.Native.Char.{code}
use ror_agent.Prelude.{
  ℕ, String, ◌≡◌, refl, ap, ◌∙◌, Bool-cases, ◌==◌, Bool, true, ◌&&◌, ◌||◌, List, [], ◌∷◌, Option,
  none, some, Error, message, ForeignError, ◌⊎◌, inl, inr, eqb, leb, ltb, if◌then◌else◌,
}

-- A response by its status code and what io.ReadAll makes of the body.
pub record Response : Type 0 where
  pub status : ℕ
  pub body : ForeignError ⊎ String

-- unicode.IsSpace
unfoldable pub is_space : ℕ → Bool
is_space c =
    (leb 9 c && leb c 13)
    || (eqb c 32 || eqb c 133 || eqb c 160 || eqb c 5760 || (leb 8192 c && leb c 8202))
    || (eqb c 8232 || eqb c 8233 || eqb c 8239 || eqb c 8287 || eqb c 12288)

unfoldable pub trim_left : String → String
unfolding is_space
trim_left String.[] = ""
trim_left (String.◌∷◌ c s) =
    let rest = trim_left s in if is_space (code c) then rest else String.◌∷◌ c s

unfoldable pub trim_right : String → String
unfolding is_space
trim_right String.[] = ""
trim_right (String.◌∷◌ c s) =
    let rest = trim_right s in if is_space (code c) && rest == "" then "" else String.◌∷◌ c rest

-- strings.TrimSpace
unfoldable pub trim_space : String → String
unfolding trim_left trim_right
trim_space s = trim_left (trim_right s)

abbrev pub body_of : Response → Option String
body_of r = if ltb 299 r.status then none else elim r.body [ inl e ↦ none | inr text ↦ some text ]

-- The text that an answer gives, if it gives one.
abbrev pub usable : (ForeignError ⊎ Response) → Option String
usable (inl e) = none
usable (inr r) = body_of r

module _ {W : Type 0} (get : String → W → (ForeignError ⊎ Response) × W) where
  abbrev first_answer : Option String → W → ((Error ⊎ String) × W) → (Error ⊎ String) × W
  first_answer (some text) w rest = (inr (trim_space text), w)
  first_answer none w rest = rest

  -- The loop over the hosts: `get` is http.Get.
  unfoldable pub get_egress_ip : List String → W → (Error ⊎ String) × W
  unfolding trim_space
  get_egress_ip [] w =
      (inl (message "could not resolve egress IP from any of the provided URLs"), w)
  get_egress_ip (url ∷ urls) w =
      let (r, w') = get url w in first_answer (usable r) w' (get_egress_ip urls w')

  -- `egressOnce` and `egressIP` of the client.
  pub record Egress : Type 0 where
    pub asked : Bool
    pub ip : String

  abbrev stored : (Error ⊎ String) × W → String × (Egress × W)
  stored (inl e, w) = ("", (record { asked = true; ip = "" }, w))
  stored (inr ip, w) = (ip, (record { asked = true; ip = ip }, w))

  -- The method of the client: the answer, and what it leaves.
  unfoldable pub client_egress_ip : Egress → W → String × (Egress × W)
  unfolding get_egress_ip
  client_egress_ip e w =
      if e.asked
      then (e.ip, (e, w))
      else stored (get_egress_ip ("http://ip.nhn.no" ∷ "https://api.ipify.org/" ∷ []) w)

  stored-asked :
      (r : (Error ⊎ String) × W)
      → ((stored r).1.0.asked ≡ true) × ((stored r).1.0.ip ≡ (stored r).0)
  stored-asked (inl e, w) = (refl, refl)
  stored-asked (inr ip, w) = (refl, refl)

  client_egress_ip-asked :
      (e : Egress) (w : W)
      → ((client_egress_ip e w).1.0.asked ≡ true)
        × ((client_egress_ip e w).1.0.ip ≡ (client_egress_ip e w).0)
  unfolding client_egress_ip
  client_egress_ip-asked e w = elim (Bool-cases e.asked) [
    | inl h ↦ rw h (refl, refl)
    | inr h ↦
        rw h (stored-asked (get_egress_ip ("http://ip.nhn.no" ∷ "https://api.ipify.org/" ∷ []) w))
  ]

  client_egress_ip_known :
      (e : Egress) (w : W) → e.asked ≡ true → client_egress_ip e w ≡ (e.ip, (e, w))
  unfolding client_egress_ip
  client_egress_ip_known e w h = rw h

  -- A second call of GetEgressIP gives the answer of the first and makes no request, whatever the
  -- world is by then, also if the first call failed.
  pub client_egress_ip_twice :
      (e : Egress) (w w' : W)
      → let first = client_egress_ip e w in
        client_egress_ip first.1.0 w' ≡ (first.0, (first.1.0, w'))
  client_egress_ip_twice e w w' =
      let (asked, same) = client_egress_ip-asked e w in
      client_egress_ip_known (client_egress_ip e w).1.0 w' asked
      ∙ ap (λ ip. (ip, ((client_egress_ip e w).1.0, w'))) same
