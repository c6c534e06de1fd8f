-- ===== src/Aws/Keys.antt =====
-- virtualmachine/aws/util.go: ValidCredentials, UploadKeyPair and DeleteKeyPair, which have a region
-- and no VM.
use libretto.Base.{
  ℕ, ◌≡◌, refl, ◌↔◌, ◌⊎◌, inl, inr, String, false, Option, none, some, List, ◌∷◌, ◌==◌,
  if◌then◌else◌, arith, eq_iff,
}
use libretto.Go.Error.{Error, new, coded, not_ready, object_not_found}
use libretto.Go.Result.{Result, ok, err, Reply, answer, failure}
use libretto.Go.Action.{Action, World, ◌>>=◌, ◌>>◌, lift, wrap, request, send, attempt, fail}
use libretto.Aws.Api.{Ec2, Call, describe_instances, import_key_pair, delete_key_pair}
use libretto.Aws.Service.{get_service, err_no_creds, err_no_region}

abbrev Nothing : Type 0
Nothing = Unit {0}

abbrev pub service_prefix : String
service_prefix = "failed to get AWS service: "

abbrev pub no_creds_code : String
no_creds_code = "NoCredentialProviders"

abbrev pub no_region_code : String
no_region_code = "MissingRegion"

abbrev pub duplicate_code : String
duplicate_code = "InvalidKeyPair.Duplicate"

-- The `switch` on the code of an AWS error; another error, or none, is returned.
pub credentials_test : Option Error → Result Nothing
credentials_test none = ok tt
credentials_test (some (coded code s)) =
    if code == no_creds_code
    then err err_no_creds
    else if code == no_region_code
    then err err_no_region
    else ok tt
credentials_test (some (new s)) = err (new s)
credentials_test (some (not_ready e info)) = err (not_ready e info)
credentials_test (some (object_not_found e object)) = err (object_not_found e object)

-- The error of ImportKeyPair: only a duplicate is let pass.
pub import_test : Reply Nothing → Result Nothing
import_test (answer a) = ok tt
import_test (failure (coded code s)) = if code == duplicate_code then ok tt else err (coded code s)
import_test (failure (new s)) = err (new s)
import_test (failure (not_ready e info)) = err (not_ready e info)
import_test (failure (object_not_found e object)) = err (object_not_found e object)

module _ {V : Type 0} (svc : Ec2) where
  -- DescribeInstances with no input is the call with no id.
  pub valid_credentials : String → Action (World V Call) Nothing
  unfolding credentials_test
  valid_credentials region = do
    wrap service_prefix (lift (get_service svc region))
    reply ← send (describe_instances "") (λ log. svc.instances log "")
    lift (credentials_test reply.1)

  pub upload_key_pair : List ℕ → String → String → Action (World V Call) Nothing
  unfolding import_test
  upload_key_pair key name region = do
    wrap service_prefix (lift (get_service svc region))
    reply ← attempt (request (import_key_pair name key) (λ log. svc.import_key log name key))
    lift (import_test reply)

  pub delete_key_pair_of : String → String → Action (World V Call) Nothing
  delete_key_pair_of name region = do
    wrap service_prefix (lift (get_service svc region))
    if name == ""
        then fail (new "Missing key pair name")
        else wrap "Failed to delete key pair: "
            (request (delete_key_pair name) (λ log. svc.remove_key log name))

import_test-ok_iff :
    (r : Reply Nothing)
    → (import_test r ≡ ok tt)
      ↔ ((r ≡ answer tt) ⊎ ((s : String) × (r ≡ failure (coded duplicate_code s))))
unfolding import_test
import_test-ok_iff (answer a) = ((λ h. inl refl), (λ h. refl))
import_test-ok_iff (failure (new s)) = ((λ h. absurd (cc h)), (λ h. ground arith))
import_test-ok_iff (failure (not_ready e info)) = ((λ h. absurd (cc h)), (λ h. ground arith))
import_test-ok_iff (failure (object_not_found e object)) =
    ((λ h. absurd (cc h)), (λ h. ground arith))
import_test-ok_iff (failure (coded code s)) = (
  (λ h. inr (s, ground (arith, eq_iff code duplicate_code))),
  (λ h. ground (arith, eq_iff code duplicate_code)),
)

upload_key_pair_by :
    {V : Type 0} (svc : Ec2) (key : List ℕ) (name region : String) (w : World V Call)
    (r : Reply Nothing)
    → get_service svc region ≡ ok tt
    → svc.import_key w.log name key ≡ r
    → upload_key_pair svc key name region w
      ≡ (import_test r, record w { log = import_key_pair name key ∷ w.log })
unfolding upload_key_pair
upload_key_pair_by svc key name region w (answer a) h e = rw (h, upload_key_pair) (rw e refl)
upload_key_pair_by svc key name region w (failure x) h e = rw (h, upload_key_pair) (rw e refl)

-- With a service for the region, UploadKeyPair returns nil if and only if EC2 imports the key or
-- reports it as a duplicate; in either case it has sent one call.
pub upload_key_pair-ok_iff :
    {V : Type 0} (svc : Ec2) (key : List ℕ) (name region : String) (w : World V Call)
    → get_service svc region ≡ ok tt
    → (((upload_key_pair svc key name region w).0 ≡ ok tt) ↔ (
        (svc.import_key w.log name key ≡ answer tt)
        ⊎ ((s : String) × (svc.import_key w.log name key ≡ failure (coded duplicate_code s)))))
      × ((upload_key_pair svc key name region w).1.log ≡ import_key_pair name key ∷ w.log)
upload_key_pair-ok_iff svc key name region w h =
    let e = upload_key_pair_by svc key name region w (svc.import_key w.log name key) h refl in
    rw e (import_test-ok_iff (svc.import_key w.log name key), refl)

credentials_test-ok_iff :
    (o : Option Error)
    → (credentials_test o ≡ ok tt) ↔ (
        (o ≡ none)
        ⊎ ((code : String) × (s : String) × (o ≡ some (coded code s))
            × ((code == no_creds_code) ≡ false)
            × ((code == no_region_code) ≡ false)))
unfolding credentials_test
credentials_test-ok_iff none = ((λ h. inl refl), (λ h. refl))
credentials_test-ok_iff (some (new s)) = ((λ h. absurd (cc h)), (λ h. ground arith))
credentials_test-ok_iff (some (not_ready e info)) = ((λ h. absurd (cc h)), (λ h. ground arith))
credentials_test-ok_iff (some (object_not_found e object)) =
    ((λ h. absurd (cc h)), (λ h. ground arith))
credentials_test-ok_iff (some (coded code s)) =
    ((λ h. inr (code, s, refl, ground arith, ground arith)), (λ h. ground arith))

-- With a service for the region, ValidCredentials returns nil if and only if the request succeeds
-- or fails with an AWS error of a code other than NoCredentialProviders and MissingRegion: an error
-- that says that the credentials are wrong counts as success.
pub valid_credentials-ok_iff :
    {V : Type 0} (svc : Ec2) (region : String) (w : World V Call)
    → get_service svc region ≡ ok tt
    → ((valid_credentials svc region w).0 ≡ ok tt) ↔ (
        ((svc.instances w.log "").1 ≡ none)
        ⊎ ((code : String) × (s : String) × ((svc.instances w.log "").1 ≡ some (coded code s))
            × ((code == no_creds_code) ≡ false)
            × ((code == no_region_code) ≡ false)))
unfolding valid_credentials
valid_credentials-ok_iff svc region w h = rw h (credentials_test-ok_iff (svc.instances w.log "").1)
