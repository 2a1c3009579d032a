-- ===== src/Oidc/Token/Revoke.antt =====
-- oidc/token.go, revokeFamily: how it answers, and what it leaves of the family.
use tempogate.Common.{ℕ, String, ◌≡◌, refl, true, false, ◌⊎◌, inl, inr, any}
use tempogate.State.Driver.{IsUp}
use tempogate.State.Refresh.{in_family}
use tempogate.State.Refresh.Revocation.{IsRevoked, revoke_refresh_family-outcome}
use tempogate.Oidc.Reply.{Tables, Failure, Result, err, server_error, continue, pure}
use tempogate.Oidc.Token.{Server, Request, revoke_family}

-- The family has ended and the request is refused with x; or it never had a token, and the
-- request is answered with a server error.
abbrev pub Ended : {A : Type 0} → String → Failure → Tables → Tables × Result A → Type 0
Ended f x t o =
    ((any (in_family f) t.refresh ≡ true) × IsRevoked f o.0.refresh × (o.1 ≡ err x))
    ⊎ ((any (in_family f) t.refresh ≡ false) × (o.0.refresh ≡ t.refresh) × (o.1 ≡ err server_error))

module _ (s : Server) (q : Request) (f : String) (at : ℕ) where
  pub revoke_family-Ended :
      {A : Type 0} (x : Failure) (t : Tables)
      → IsUp q.revoke_db
      → Ended {A = A} f x t (continue (revoke_family s q f at t) (λ _. pure (err x)))
  unfolding revoke_family
  revoke_family-Ended x t ready =
      elim (revoke_refresh_family-outcome q.revoke_db f at t.refresh ready) [
        | inl (absent, unknown) ↦ inr (absent, rw unknown refl, rw unknown refl)
        | inr (present, answer, ended) ↦ inl (present, rw answer ended, rw answer refl)
      ]

  -- A family that has a token is revoked, and the request is refused.
  pub revoke_family-known :
      {A : Type 0} (x : Failure) (t : Tables)
      → IsUp q.revoke_db
      → any (in_family f) t.refresh ≡ true
      → IsRevoked f (continue {B = A} (revoke_family s q f at t) (λ _. pure (err x))).0.refresh
        × ((continue {B = A} (revoke_family s q f at t) (λ _. pure (err x))).1 ≡ err x)
  revoke_family-known {A} x t ready present = elim (revoke_family-Ended {A = A} x t ready) [
    | inl (_, ended, answer) ↦ (ended, answer)
    | inr (absent, _, _) ↦ cc
  ]
