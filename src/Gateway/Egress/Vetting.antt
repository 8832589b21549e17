-- ===== src/Gateway/Egress/Vetting.antt =====
-- `vet_target` against what it is to allow.
use aegis_honeypot.Prelude.{
  ℕ, ◌≡◌, refl, ap, subst, ◌↔◌, Bool, true, not, List, [], ◌∷◌, Option, none, some, inl, inr, arith,
  find, all, Bool-cases,
}
use aegis_honeypot.Prelude.Text.{Text}
use aegis_honeypot.Gateway.Egress.{
  SocketAddr, Url, target, is_http, is_blocked_ip, vet_bad, vet_addrs, vet_port, vet_host,
  vet_target,
}

abbrev pub is_open : SocketAddr → Bool
is_open a = not (is_blocked_ip a.ip)

-- The resolver answers `t` first, and no address it answers is blocked.
abbrev pub Answers : Option (List SocketAddr) → SocketAddr → Type 0
Answers o t = (rest : List SocketAddr) × (o ≡ some (t ∷ rest)) × (all is_open (t ∷ rest) ≡ true)

-- `url` is an HTTP or HTTPS one with a host and a port, and its host resolves to `t` first and to
-- no blocked address at all.
abbrev pub Allowed : (Text → ℕ → Option (List SocketAddr)) → Url → SocketAddr → Type 0
Allowed resolve url t =
    (is_http url.scheme ≡ true)
    × (host : Text) × (port : ℕ) × (url.host_str ≡ some host)
    × (url.port_or_known_default ≡ some port)
    × Answers (resolve host port) t

vet_bad_iff :
    (host : Text) (first t : SocketAddr) (l : List SocketAddr)
    → (vet_bad host first (find (λ a. is_blocked_ip a.ip) l) ≡ target t)
      ↔ ((first ≡ t) × (all is_open l ≡ true))
vet_bad_iff host first t [] = ground arith
vet_bad_iff host first t (a ∷ l) = ground (arith, vet_bad_iff host first t l)

vet_addrs_iff :
    (host : Text) (o : Option (List SocketAddr)) (t : SocketAddr)
    → (vet_addrs host o ≡ target t) ↔ Answers o t
vet_addrs_iff host none t = (λ e. ground arith, λ w. ground (arith, w.1))
vet_addrs_iff host (some []) t = (λ e. ground arith, λ w. ground (arith, w.1))
vet_addrs_iff host (some (a ∷ l)) t = (
  λ e.
      let x = (vet_bad_iff host a t (a ∷ l)).0 e in
      (l, ap (λ z. some (z ∷ l)) x.0, subst (λ z. all is_open (z ∷ l) ≡ true) x.0 x.1),
  λ w. ground (arith, w, vet_bad_iff host a t (a ∷ l)),
)

vet_port_iff :
    (resolve : Text → ℕ → Option (List SocketAddr)) (host : Text) (p : Option ℕ) (t : SocketAddr)
    → (vet_port resolve host p ≡ target t)
      ↔ ((port : ℕ) × (p ≡ some port) × Answers (resolve host port) t)
vet_port_iff resolve host none t = (λ e. ground arith, λ w. ground (arith, w.1))
vet_port_iff resolve host (some port) t = (
  λ e. (port, refl, (vet_addrs_iff host (resolve host port) t).0 e),
  λ w.
      (vet_addrs_iff host (resolve host port) t).1
        (subst (λ z. Answers (resolve host z) t) (ground (arith, w.1)) w.2),
)

vet_host_iff :
    (resolve : Text → ℕ → Option (List SocketAddr)) (h : Option Text) (p : Option ℕ)
    (t : SocketAddr)
    → (vet_host resolve h p ≡ target t) ↔ (
        (host : Text) × (port : ℕ) × (h ≡ some host)
        × (p ≡ some port)
        × Answers (resolve host port) t)
vet_host_iff resolve none p t = (λ e. ground arith, λ w. ground (arith, w.2))
vet_host_iff resolve (some host) p t = (
  λ e. let x = (vet_port_iff resolve host p t).0 e in (host, x.0, refl, x.1, x.2),
  λ w. (vet_port_iff resolve host p t).1 (
      subst (λ z. (port : ℕ) × (p ≡ some port) × Answers (resolve z port) t) (ground (arith, w.2))
        (w.1, w.3, w.4)),
)

-- `vet_target` names the address `t` exactly when the URL is an HTTP or HTTPS one with a host and
-- a port, its host resolves to `t` first, and none of the addresses it resolves to is blocked.
-- All else is refused.
pub vet_target-Allowed :
    (resolve : Text → ℕ → Option (List SocketAddr)) (url : Url) (t : SocketAddr)
    → (vet_target resolve url ≡ target t) ↔ Allowed resolve url t
unfolding vet_target
vet_target-Allowed resolve url t = elim (Bool-cases (is_http url.scheme)) [
  | inl on ↦ (
    λ e.
        let x =
          (vet_host_iff resolve url.host_str url.port_or_known_default t).0 (ground (arith, e)) in
        (on, x.0, x.1, x.2, x.3, x.4),
    λ w. ground (
      arith,
      on,
      (vet_host_iff resolve url.host_str url.port_or_known_default t).1 (w.1, w.2, w.3, w.4, w.5),
    ),
  )
  | inr other ↦ (λ e. ground (arith, e, other), λ w. ground (arith, w.0, other))
]
