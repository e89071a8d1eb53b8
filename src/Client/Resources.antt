-- ===== src/Client/Resources.antt =====
-- The channel and resource matrix that the two policies enforce together.
use authgate.Prelude.{
  ◌≡◌, refl, ◌↔◌, ◌⊎◌, ◌≢◌, inl, inr, true, Option, none, some, String, eq_iff, ok, arith,
  Bool-cases,
}
use authgate.Client.{Model, Registry, load, mcp_refuses, mcp_validate_authorize, mcp_validate_token}

-- /authorize accepts a resolved client exactly if it is an mcp client with a resource, or a client of
-- another channel without one.
pub mcp_validate_authorize_iff :
    (c : Model) (requested : String)
    → (mcp_validate_authorize (some c) requested ≡ ok tt) ↔ (
        ((c.login_channel ≡ "mcp") × (requested ≢ ""))
        ⊎ ((c.login_channel ≢ "mcp") × (requested ≡ "")))
unfolding mcp_validate_authorize
mcp_validate_authorize_iff c requested =
    grind (arith, eq_iff c.login_channel "mcp", eq_iff requested "")

mcp_refuses-some :
    (o : Option Model) (c : Model) → o ≡ some c → c.login_channel ≢ "mcp" → mcp_refuses o ≡ true
unfolding mcp_refuses
mcp_refuses-some none c e h = cc
mcp_refuses-some (some d) c e h = ground (arith, eq_iff c.login_channel "mcp")

mcp_refuses-client :
    (o : Option Model)
    → mcp_refuses o ≡ true
    → (c : Model) × (o ≡ some c) × (c.login_channel ≢ "mcp")
unfolding mcp_refuses
mcp_refuses-client none h = absurd (cc)
mcp_refuses-client (some c) h = (c, refl, ground (arith, eq_iff c.login_channel "mcp"))

-- The token endpoint accepts exactly the resource that was bound, and none for a static client
-- of another channel than mcp.
pub mcp_validate_token_iff :
    (reg : Registry) (client_id stored requested : String)
    → (mcp_validate_token reg client_id stored requested ≡ ok tt) ↔ (
        (requested ≡ stored)
        × ((c : Model) → load reg client_id ≡ some c → c.login_channel ≢ "mcp" → stored ≡ ""))
unfolding mcp_validate_token
mcp_validate_token_iff reg client_id stored requested = (
  λ h. (
    ground (arith, eq_iff stored "", eq_iff requested "", eq_iff requested stored),
    λ c e k.
        ground (
          arith,
          eq_iff stored "",
          eq_iff requested "",
          mcp_refuses-some (load reg client_id) c e k,
        ),
  ),
  λ (same, bound). elim (Bool-cases (mcp_refuses (load reg client_id))) [
    | inl refuses ↦
        let (c, e, k) = mcp_refuses-client (load reg client_id) refuses in
        ground (arith, bound c e k, eq_iff stored "", eq_iff requested "", eq_iff requested stored)
    | inr accepts ↦ ground (arith, eq_iff stored "", eq_iff requested "", eq_iff requested stored)
  ],
)
