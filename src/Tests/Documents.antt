-- ===== src/Tests/Documents.antt =====
-- JSON documents, a platform and a database for the tests of the ingest worker.
use tmdb_mirror.Prelude.{
  ℕ, ◌+◌, ◌^◌, ◌<◌, ◌≡◌, refl, ap, Bool, true, false, List, [], ◌∷◌, map, Option, none, some, ltb,
  length, if◌then◌else◌, ok, err, pos, Text, codes, text_eq, arith,
}
use tmdb_mirror.Jobs.Model.{Platform, JobId}
use tmdb_mirror.Jobs.Repository.{Database, SqlxError}
use tmdb_mirror.Ingest.Json.{Json, IsJson}
use tmdb_mirror.Ingest.Submit.{Transactions}

pub data Doc : Type 0 where
  null nil no_entry : Doc
  number date : ℕ → Doc
  boolean : Bool → Doc
  string : Text → Doc
  cons : Doc → Doc → Doc
  entry : Text → Doc → Doc → Doc
  object : Doc → Doc

abbrev pub is_object : Doc → Bool
is_object (object m) = true
is_object _ = false

abbrev pub find : Doc → Text → Option Doc
find (entry k v m) l = if text_eq l k then some v else find m l
find _ l = none

abbrev pub member : Doc → Text → Option Doc
member (object m) l = find m l
member _ l = none

abbrev pub keys : Doc → List Text
keys (entry k v m) = k ∷ keys m
keys _ = []

abbrev pub names : Doc → List Text
names (object m) = keys m
names _ = []

abbrev pub is_null : Doc → Bool
is_null null = true
is_null _ = false

abbrev pub read_below : ℕ → Doc → Option ℕ
read_below bound (number n) = if ltb n bound then some n else none
read_below bound _ = none

abbrev pub read_bool : Doc → Option Bool
read_bool (boolean b) = some b
read_bool _ = none

abbrev pub read_string : Doc → Option Text
read_string (string s) = some s
read_string _ = none

abbrev pub read_date : Doc → Option ℕ
read_date (date d) = some d
read_date _ = none

abbrev pub more_values : Doc → Option (List Doc) → Option (List Doc)
more_values v none = none
more_values v (some vs) = some (v ∷ vs)

abbrev pub read_array : Doc → Option (List Doc)
read_array nil = some []
read_array (cons v w) = more_values v (read_array w)
read_array _ = none

abbrev pub array : List Doc → Doc
array [] = nil
array (v ∷ vs) = cons v (array vs)

abbrev pub json : Json Doc
json = record {
  member = member;
  names = names;
  is_null = is_null;
  read_u32 = read_below (2 ^ 32);
  read_u64 = read_below (2 ^ 64);
  read_bool = read_bool;
  read_string = read_string;
  variant = read_string;
  read_array = read_array;
  read_date = read_date;
  Map = Doc;
  empty = no_entry;
  insert = entry;
  object = object;
  null = null;
  number = number;
  boolean = boolean;
  string = string;
  array = array;
  date = date;
}

below : (n bound : ℕ) → n < bound → read_below bound (number n) ≡ some n
below n bound h = ground arith

read-array : (vs : List Doc) → read_array (array vs) ≡ some vs
read-array [] = refl
read-array (v ∷ vs) = ap (more_values v) (read-array vs)

pub json-IsJson : IsJson is_object json
json-IsJson = record {
  is_object-object = λ o. refl;
  member-empty = λ k. refl;
  member-insert = λ k l v o. refl;
  names-empty = refl;
  names-insert = λ p k v o. refl;
  read_u32-number = λ n h. below n (2 ^ 32) h;
  read_u64-number = λ n h. below n (2 ^ 64) h;
  read_bool-boolean = λ b. refl;
  read_string-string = λ s. refl;
  variant-string = λ s. refl;
  read_array-array = read-array;
  read_date-date = λ d. refl;
  null-null = refl;
  null-date = λ d. refl;
}

abbrev pub documents : Platform
documents = record {
  Value = Doc;
  is_object = is_object;
  to_vec = λ v. some (codes "{}");
  to_string = λ v. some (codes "{}");
  empty_object = object no_entry;
  DateTime = ℕ;
  year = λ t. pos t;
}

abbrev outage : SqlxError
outage = record { code = none }

abbrev pub job_id : JobId
job_id = record { uuid = 7 }

-- A state is the number of rows written in the open transaction, and of those that others see.
abbrev pub rows_db : Database Doc ℕ
rows_db = record {
  State = ℕ × ℕ;
  submit_job = λ r s. (err outage, s);
  submit_jobs = λ rs s. (
    ok (map (λ r. record { job_id = job_id; was_duplicate = false }) rs),
    (s.0 + length rs, s.1),
  );
  claim_job = λ w l s. (ok none, s);
  claim_job_for_types = λ w l ts s. (ok none, s);
  heartbeat_job = λ j w l s. (err outage, s);
  job_cancellation_requested = λ j w s. (ok none, s);
  complete_job = λ j w v s. (err outage, s);
  fail_job = λ j w c d s. (err outage, s);
  dead_letter_job = λ j w c s. (err outage, s);
  request_job_cancel = λ j m s. (err outage, s);
  job_status = λ j s. (ok none, s);
}

abbrev pub transactions : Transactions (ℕ × ℕ)
transactions = record {
  begin = λ s. (true, (0, s.1));
  commit = λ s. (true, (0, s.0 + s.1));
  rollback = λ s. (true, (0, s.1));
  dropped = λ s. (0, s.1);
  child_submissions_enabled = λ s. (some true, s);
  try_admission = λ s. (some true, s);
}
