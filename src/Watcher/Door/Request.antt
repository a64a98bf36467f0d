-- ===== src/Watcher/Door/Request.antt =====
-- src/watch.go: the kind that a request is read for has no space around it.
use autonomy.Base.{◌≡◌, ◌≢◌, refl, subst, ap, is_nil, Result, ok, err, Bool-cases, inl, inr}
use autonomy.Text.{trim_left, is_space, trim_space, is_blank}
use autonomy.Text.Laws.{trim_space-trim_space}
use autonomy.Watcher.{Spec}
use autonomy.Watcher.Door.{WatchRequest, spec_from_request, kind_from, target_from}

pub ok_inj : {A B : Type 0} {x y : B} → ◌≡◌ {A = Result A B} (ok x) (ok y) → x ≡ y
ok_inj e = cc

pub err_ok : {A B : Type 0} {x : A} {y : B} → err x ≢ ok y
err_ok e = cc

kind_from_plain : (req : WatchRequest) → trim_space (kind_from req) ≡ kind_from req
unfolding kind_from
kind_from_plain req = elim (Bool-cases (is_blank req.kind)) [
  | inr k ↦ rw k (trim_space-trim_space req.kind)
  | inl k ↦ elim (Bool-cases (is_blank req.pr)) [
    | inr p ↦ rw (k, p) (unfold trim_space trim_left is_space in refl)
    | inl p ↦ elim (Bool-cases (is_blank req.deployment)) [
      | inr d ↦ rw (k, p, d) (unfold trim_space trim_left is_space in refl)
      | inl d ↦ rw (k, p, d) (unfold trim_space trim_left in refl)
    ]
  ]
]

pub spec_from_request-kind :
    (req : WatchRequest) (spec : Spec)
    → spec_from_request req ≡ ok spec
    → trim_space spec.kind ≡ spec.kind
unfolding spec_from_request
spec_from_request-kind req spec e = elim (Bool-cases (is_nil (kind_from req))) [
  | inl k ↦ absurd (err_ok (rw k at e))
  | inr k ↦ elim (Bool-cases (is_nil (target_from req))) [
    | inl t ↦ absurd (err_ok (rw (k, t) at e))
    | inr t ↦
        let same = ok_inj (rw (k, t) at e) in
        subst (λ k. trim_space k ≡ k) (ap (λ s. s.kind) same) (kind_from_plain req)
  ]
]
