-- ===== src/Inbound/Route/Sent.antt =====
-- Route asks nothing of FreeSWITCH.
use callvoice.Common.{
  ℕ, refl, Bool-cases, inl, inr, List, Text, is_empty, Result, ok, err, no_agent, unknown_did,
}
use callvoice.Services.{Services}
use callvoice.Services.Commands.{W, continue}
use callvoice.Services.Commands.Silent.{Calm, Calm-trans}
use callvoice.Inbound.Scan.{first_available_agent}
use callvoice.Inbound.Scan.Sent.{first_available_agent-Calm}
use callvoice.Inbound.Number.{normalize_did, is_agent_pool}
use callvoice.Inbound.Route.{Did, Router, route_agent, route_did, route}

module _ ⦃S : Services⦄ where
  route_agent-Calm : (d : Did) (r : Result ℕ) (w : W) → Calm w (route_agent d r w).1
  unfolding route_agent
  route_agent-Calm d (ok id) w = (refl, refl)
  route_agent-Calm d (err no_agent) w = (refl, refl)
  route_agent-Calm d (err e) w = (refl, refl)

  searched-Calm :
      (d : Did) (w : W) (q : Result ℕ × W)
      → Calm w q.1
      → Calm w (continue (route_agent d) (ok q.0, q.1)).1
  searched-Calm d w (r, w1) h = Calm-trans w w1 (route_agent d r w1).1 h (route_agent-Calm d r w1)

  route_did-Calm :
      (r : Router) (pages : List (Result (List Text))) (number : Text) (l : Result Did) (w : W)
      → Calm w (route_did r pages number l w).1
  unfolding route_did
  route_did-Calm r pages number (err unknown_did) w = (refl, refl)
  route_did-Calm r pages number (err e) w = (refl, refl)
  route_did-Calm r pages number (ok d) w = elim (Bool-cases (is_agent_pool d.destination)) [
    | inr outside ↦ rw outside (refl, refl)
    | inl pool ↦ rw pool (
        searched-Calm d w (first_available_agent r.pres pages w)
          (first_available_agent-Calm r.pres pages w))
  ]

  pub route-Calm :
      (r : Router) (pages : List (Result (List Text))) (number : Text) (w : W)
      → Calm w (route r pages number w).1
  unfolding route
  route-Calm r pages number w = elim (Bool-cases (is_empty (normalize_did number))) [
    | inl nothing ↦ rw nothing (refl, refl)
    | inr given ↦
        rw given (route_did-Calm r pages (normalize_did number) (r.lookup (normalize_did number)) w)
  ]
