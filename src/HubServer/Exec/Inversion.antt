-- ===== src/HubServer/Exec/Inversion.antt =====
-- What a call of the hub server that replied has done, one part at a time.
use wispers_hub.Base.{◌≡◌, refl, Bool, true, false, Option, none, some}
use wispers_hub.Grpc.{Error}
use wispers_hub.Standalone.Exec.{Result, ok, err}
use wispers_hub.HubServer.Interface.{Hub}
use wispers_hub.HubServer.Exec.{
  Outcome, replied, failed, waiting, panicked, Handler, continue, outcome_of, ◌>>=◌, pure, guard,
  or_raise, ask, tell,
}

module _ {S L B : Type 0} (h h' : Hub S L) (b : B) where
  continue-eq-replied :
      {A : Type 0} (p : Outcome A × Hub S L) (k : A → Handler S L B)
      → continue p.0 k p.1 ≡ (replied b, h')
      → (a : A) × (h1 : Hub S L) × (p ≡ (replied a, h1)) × (k a h1 ≡ (replied b, h'))
  continue-eq-replied (replied a, h1) k e = (a, h1, refl, e)
  continue-eq-replied (failed f, h1) k e = cc
  continue-eq-replied (waiting, h1) k e = cc
  continue-eq-replied (panicked, h1) k e = cc

  pub >>=-eq-replied :
      {A : Type 0} (m : Handler S L A) (k : A → Handler S L B)
      → (m >>= k) h ≡ (replied b, h')
      → (a : A) × (h1 : Hub S L) × (m h ≡ (replied a, h1)) × (k a h1 ≡ (replied b, h'))
  unfolding ◌>>=◌
  >>=-eq-replied m k e = continue-eq-replied (m h) k e

  pub raise-bind :
      {A : Type 0} (o : Option A) (x : Error) (k : A → Handler S L B)
      → (or_raise o x >>= k) h ≡ (replied b, h')
      → (a : A) × (o ≡ some a) × (k a h ≡ (replied b, h'))
  unfolding or_raise ◌>>=◌
  raise-bind none x k e = cc
  raise-bind (some a) x k e = (a, refl, e)

  pub guard-bind :
      (c : Bool) (x : Error) (k : Unit {0} → Handler S L B)
      → (guard c x >>= k) h ≡ (replied b, h')
      → (c ≡ true) × (k tt h ≡ (replied b, h'))
  unfolding guard ◌>>=◌
  guard-bind true x k e = (refl, e)
  guard-bind false x k e = cc

  ask-continue :
      {A : Type 0} (p : Result Error A × S) (k : A → Handler S L B)
      → continue (outcome_of p.0) k (record h { backend = p.1 }) ≡ (replied b, h')
      → (a : A) × (s : S) × (p ≡ (ok a, s)) × (k a (record h { backend = s }) ≡ (replied b, h'))
  ask-continue (ok a, s) k e = (a, s, refl, e)
  ask-continue (err x, s) k e = cc

  pub ask-bind :
      {A : Type 0} (call : S → Result Error A × S) (k : A → Handler S L B)
      → (ask call >>= k) h ≡ (replied b, h')
      → (a : A) × (s : S) × (call h.backend ≡ (ok a, s))
        × (k a (record h { backend = s }) ≡ (replied b, h'))
  unfolding ask ◌>>=◌
  ask-bind call k e = ask-continue (call h.backend) k e

  pub tell-bind :
      {A : Type 0} (call : S → Result Error A × S) (k : Unit {0} → Handler S L B)
      → (tell call >>= k) h ≡ (replied b, h')
      → k tt (record h { backend = (call h.backend).1 }) ≡ (replied b, h')
  unfolding tell ◌>>=◌
  tell-bind call k e = e

pub pure-eq-replied :
    {S L A : Type 0} (h h' : Hub S L) (a b : A) → pure a h ≡ (replied b, h') → (b ≡ a) × (h' ≡ h)
unfolding pure
pure-eq-replied h h' a b e = (cc, cc)
