-- ===== src/Jobs/Record/Valid.antt =====
-- Job records that pass their own guards.
use comfy_ui_ng.Prelude.{◌<◌, ◌≡◌, refl, sym, subst, ok, arith, [], ◌∷◌, codes}
use comfy_ui_ng.Json.{Value, null, freeze, is_object, key}
use comfy_ui_ng.Json.Freeze.{freeze_idem}
use comfy_ui_ng.Jobs.Record.{
  JobRecord, is_null, check_record, check_request, optional_identifier, check_lifecycle, freeze_at,
  freeze_result, freeze_error,
}
use Prim.Native.String.{String}

-- The record passes its guards, and its JSON values are frozen.
abbrev pub IsValid : {Estimate : Type 0} → JobRecord Estimate → Type 0
IsValid r = check_record r ≡ ok r

-- What the guards of a record establish one by one.
pub record Parts {Estimate : Type 0} (r r' : JobRecord Estimate) : Type 0 where
  pub request :
      check_request r.job_id r.queue r.user_priority r.payload r.max_attempts r.workflow_id
        r.workflow_version_id
      ≡ ok tt
  pub cache_key : optional_identifier r.cache_key ≡ ok tt
  pub lifecycle : check_lifecycle r ≡ ok tt
  pub payload : freeze_at "payload" r.payload ≡ ok r'.payload
  pub result : freeze_result r.result ≡ ok r'.result
  pub error : freeze_error r.error ≡ ok r'.error
  pub same : r' ≡ record r { payload = r'.payload; result = r'.result; error = r'.error }

module _ {Estimate : Type 0} where
  pub check_record→Parts : (r r' : JobRecord Estimate) → check_record r ≡ ok r' → Parts r r'
  unfolding check_record
  check_record→Parts r r' h = ground arith

  pub Parts→check_record : (r r' : JobRecord Estimate) → Parts r r' → check_record r ≡ ok r'
  unfolding check_record
  Parts→check_record r r' h =
      rw (h.request, h.cache_key, h.lifecycle, h.payload, h.result, h.error, h.same)

-- Freezing keeps what the guards of a record read.
freeze-is_object :
    (name : String) (v w : Value) → freeze_at name v ≡ ok w → is_object w ≡ is_object v
unfolding freeze_at freeze is_object
freeze-is_object name v w h = ground arith

freeze-is_null : (name : String) (v w : Value) → freeze_at name v ≡ ok w → is_null w ≡ is_null v
unfolding freeze_at freeze
freeze-is_null name v w h = ground arith

freeze_at_idem : (name : String) (v w : Value) → freeze_at name v ≡ ok w → freeze_at name w ≡ ok w
unfolding freeze_at
freeze_at_idem name v w h =
    let path = key (codes name) ∷ [] in ground (arith, freeze_idem path path v w)

pub freeze_result_idem : (v w : Value) → freeze_result v ≡ ok w → freeze_result w ≡ ok w
unfolding freeze_result
freeze_result_idem v w h = ground (arith, freeze_at_idem "result" v w, freeze-is_null "result" v w)

pub freeze_error_idem : (v w : Value) → freeze_error v ≡ ok w → freeze_error w ≡ ok w
unfolding freeze_error
freeze_error_idem v w h = ground (arith, freeze_at_idem "error" v w, freeze-is_null "error" v w)

freeze_result-is_null : (v w : Value) → freeze_result v ≡ ok w → is_null w ≡ is_null v
unfolding freeze_result
freeze_result-is_null v w h = ground (arith, freeze-is_null "result" v w)

module _ {Estimate : Type 0} where
  request_kept :
      (r r' : JobRecord Estimate)
      → Parts r r'
      → check_request r.job_id r.queue r.user_priority r'.payload r.max_attempts r.workflow_id
          r.workflow_version_id
        ≡ ok tt
  unfolding check_request
  request_kept r r' h =
      let before = h.request in
      ground (arith, freeze-is_object "payload" r.payload r'.payload h.payload)

  lifecycle_kept :
      (r : JobRecord Estimate) (payload result error : Value)
      → check_lifecycle r ≡ ok tt
      → is_null result ≡ is_null r.result
      → check_lifecycle (record r { payload = payload; result = result; error = error }) ≡ ok tt
  unfolding check_lifecycle
  lifecycle_kept r payload result error h n = ground arith

  filled_Parts :
      (r : JobRecord Estimate) (payload result error : Value)
      → let r' = record r { payload = payload; result = result; error = error } in
        Parts r r' → Parts r' r'
  filled_Parts r payload result error h =
      let r' : JobRecord Estimate = record r {
        payload = payload;
        result = result;
        error = error;
      } in
      record {
        request = request_kept r r' h;
        cache_key = h.cache_key;
        lifecycle =
            lifecycle_kept r payload result error h.lifecycle
              (freeze_result-is_null r.result result h.result);
        payload = freeze_at_idem "payload" r.payload payload h.payload;
        result = freeze_result_idem r.result result h.result;
        error = freeze_error_idem r.error error h.error;
        same = refl;
      }

  -- Building a record from the fields of one that passed changes nothing.
  pub check_record-IsValid : (r r' : JobRecord Estimate) → check_record r ≡ ok r' → IsValid r'
  check_record-IsValid r r' h =
      let p = check_record→Parts r r' h in
      Parts→check_record r' r' (
        subst (λ s. Parts s s) (sym p.same)
          (filled_Parts r r'.payload r'.result r'.error (subst (Parts r) p.same p)))

  -- The guards change nothing but the JSON values.
  pub check_record-same :
      (r r' : JobRecord Estimate)
      → check_record r ≡ ok r'
      → r' ≡ record r { payload = r'.payload; result = r'.result; error = r'.error }
  check_record-same r r' h = (check_record→Parts r r' h).same

pub freeze_result-null : freeze_result null ≡ ok null
unfolding freeze_result
freeze_result-null = refl

module _ {Estimate : Type 0} where
  pub IsValid-attempt : (r : JobRecord Estimate) → IsValid r → r.attempt < r.max_attempts
  unfolding check_lifecycle
  IsValid-attempt r v = let h = (check_record→Parts r r v).lifecycle in ground arith
