-- ===== src/Gateway/Egress/Tests.antt =====
-- The egress guard on a few addresses, and the theorems at concrete inputs.
use aegis_honeypot.Prelude.{
  ℕ, true, ◌≡◌, refl, ◌↔◌, List, [], ◌∷◌, Option, some, arith, any, list_beq,
}
use aegis_honeypot.Prelude.Text.{Text, codes}
use aegis_honeypot.Net.{Ipv4Addr, v4}
use aegis_honeypot.Gateway.Egress.{
  SocketAddr, Url, Vetted, Refusal, target, is_blocked_v4, is_blocked_ip, is_private_or_local,
  vet_target,
}
use aegis_honeypot.Gateway.Egress.Nets.{is_in, special_nets, is_blocked_ip-special_nets}
use aegis_honeypot.Gateway.Egress.Vetting.{Allowed, vet_target-Allowed}

abbrev metadata : Ipv4Addr
metadata = record { o0 = 169; o1 = 254; o2 = 169; o3 = 254 }

abbrev public : SocketAddr
public = record { ip = v4 (record { o0 = 93; o1 = 184; o2 = 216; o3 = 34 }); port = 80 }

abbrev internal : SocketAddr
internal = record { ip = v4 metadata; port = 80 }

abbrev url : Url
url = record {
  scheme = codes "http";
  host_str = some (codes "evil.example");
  port_or_known_default = some 80;
  path_segments = some (codes "x.sh" ∷ []);
}

abbrev honest : Text → ℕ → Option (List SocketAddr)
honest host port = some (public ∷ [])

-- A resolver that answers a public and an internal address.
abbrev rebinding : Text → ℕ → Option (List SocketAddr)
rebinding host port = some (public ∷ internal ∷ [])

rebinding_refused :
    Vetted.refused (Refusal.blocked (codes "evil.example") (v4 metadata)) ≡ vet_target rebinding url
unfolding vet_target is_blocked_ip is_blocked_v4 list_beq
rebinding_refused = refl

honest_allowed : vet_target honest url ≡ target public
unfolding vet_target is_blocked_ip is_blocked_v4 list_beq
honest_allowed = refl

is_blocked_ip-special_nets_example : is_blocked_ip (v4 metadata) ≡ any (is_in metadata) special_nets
is_blocked_ip-special_nets_example =
    is_blocked_ip-special_nets metadata (omega arith, omega arith, omega arith, omega arith)

local_metadata : is_private_or_local (v4 metadata) ≡ true
unfolding is_private_or_local
local_metadata = refl

vet_target-Allowed_example : (vet_target honest url ≡ target public) ↔ Allowed honest url public
vet_target-Allowed_example = vet_target-Allowed honest url public
