-- ===== src/Enrollment/Kms/Moment.antt =====
-- `utc_timestamps` of enrollment/src/kms.c: the day and the time that a request is signed with.
use nirantara.Common.{Option, ◌==◌, ◌≡◌, ap, sym, ◌∙◌, some, [], ◌∷◌, ◌++◌, length, arith}
use nirantara.Common.Options.{>>=-eq-some, guard-eq-some, some_eq}
use nirantara.Common.Text.{Bytes}
use nirantara.Enrollment.Kms.Sign.{Tm, two_digits, date_text, amz_date_text, utc_timestamps}

-- The two texts name one moment: the second begins with the first.
pub record IsMoment (date amz_date : Bytes) : Type 0 where
  pub time : Bytes
  pub same_day : amz_date ≡ date ++ b'T' ∷ time
  pub length-date : length date ≡ 8
  pub length-amz_date : length amz_date ≡ 16

pub utc_timestamps-IsMoment :
    (clock : Option Tm) (date amz_date : Bytes)
    → utc_timestamps clock ≡ some (date, amz_date)
    → IsMoment date amz_date
unfolding utc_timestamps
utc_timestamps-IsMoment clock date amz_date h =
    let (tm, _, h1) = >>=-eq-some clock _ h in
    let (day, h2) = guard-eq-some (length (date_text tm) == 8) _ h1 in
    let (all, h3) = guard-eq-some (length (amz_date_text tm) == 16) _ h2 in
    let same = some_eq _ _ h3 in
    let is_date = ap (λ (r : Bytes × Bytes). r.0) same in
    let is_time = ap (λ (r : Bytes × Bytes). r.1) same in
    record {
      time = _;
      same_day =
          sym is_time
          ∙ ap
              (λ t.
                t
                ++ b'T'
                  ∷ (two_digits tm.hour
                      ++ (two_digits tm.minute ++ (two_digits tm.second ++ b'Z' ∷ []))))
              is_date;
      length-date = ap length (sym is_date) ∙ ground arith;
      length-amz_date = ap length (sym is_time) ∙ ground arith;
    }
