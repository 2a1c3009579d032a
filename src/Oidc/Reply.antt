-- ===== src/Oidc/Reply.antt =====
-- What a handler does: it reads and writes the tables, and returns a value or an error. An error
-- is an oauthError (oidc/authorize.go), the sentinel errNoPermissions (oidc/authz.go), or any
-- other error, which the client sees as a 500.
use tempogate.Common.{ℕ, String, ◌≡◌, refl, List, Bool, true, false}
use tempogate.State.AuthCodes.{AuthCodeRow}
use tempogate.State.DeviceCodes.{DeviceCodeRow}
use tempogate.State.Refresh.{RefreshRow}

pub record Tables : Type 0 where
  pub codes : List AuthCodeRow
  pub refresh : List RefreshRow
  pub devices : List DeviceCodeRow

pub data Failure : Type 0 where
  -- status, code and description
  oauth_error : ℕ → String → String → Failure
  no_permissions : Failure
  server_error : Failure

pub data Result {ℓ} (A : Type ℓ) : Type ℓ where
  ok : A → Result A
  err : Failure → Result A

-- oauthErr
abbrev pub oauth_err {ℓ} : {A : Type ℓ} → ℕ → String → String → Result A
oauth_err status code desc = err (oauth_error status code desc)

abbrev pub bad_request : ℕ
bad_request = 400

abbrev pub unauthorized : ℕ
unauthorized = 401

abbrev pub Handler : Type 0 → Type 0
Handler A = Tables → Tables × Result A

abbrev pub pure : {A : Type 0} → Result A → Handler A
pure r t = (t, r)

abbrev pub continue : {A B : Type 0} → Tables × Result A → (A → Handler B) → Tables × Result B
continue (t, ok a) f = f a t
continue (t, err e) f = (t, err e)

infixl 5 ◌>>=◌ ◌>>◌
abbrev pub ◌>>=◌ : {A B : Type 0} → Handler A → (A → Handler B) → Handler B
◌>>=◌ m f t = continue (m t) f

abbrev pub ◌>>◌ : {B : Type 0} → Handler (Unit {0}) → Handler B → Handler B
m >> k = m >>= λ _. k

-- if test { return err }
abbrev pub refuse_if : Bool → Failure → Handler (Unit {0})
refuse_if true e t = (t, err e)
refuse_if false e t = (t, ok tt)

-- What a success of a composed handler says of its parts.
pub continue_ok :
    {A B : Type 0} (o : Tables × Result A) (f : A → Handler B) {t' : Tables} {b : B}
    → continue o f ≡ (t', ok b)
    → (t : Tables) × (a : A) × (o ≡ (t, ok a)) × (f a t ≡ (t', ok b))
continue_ok (t, ok a) f e = (t, a, refl, e)
continue_ok (t, err x) f e = cc

pub refuse_if_ok :
    {B : Type 0} (test : Bool) (x : Failure) (t : Tables) (f : Unit {0} → Handler B) {t' : Tables}
    {b : B}
    → continue (refuse_if test x t) f ≡ (t', ok b)
    → (test ≡ false) × (f tt t ≡ (t', ok b))
refuse_if_ok true x t f e = cc
refuse_if_ok false x t f e = (refl, e)

pub ok_injective : {A : Type 0} {t t' : Tables} {a b : A} → pure (ok a) t ≡ pure (ok b) t' → a ≡ b
ok_injective e = cc

pub pure_ok :
    {A B : Type 0} (o : Result A) (f : A → Handler B) (t : Tables) {t' : Tables} {b : B}
    → continue (pure o t) f ≡ (t', ok b)
    → (a : A) × (o ≡ ok a) × (f a t ≡ (t', ok b))
pure_ok (ok a) f t e = (a, refl, e)
pure_ok (err x) f t e = cc
