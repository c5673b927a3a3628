-- ===== src/Store/Accounting.antt =====
-- Rate limits: what `consume_rate_limit` (retail_context/control_store.py) permits in a window, over any
-- history of calls.
use sharpe_nova_os.Prelude.{
  ℕ, ◌≡◌, refl, ◌∙◌, sym, Bool, true, false, ◌&&◌, none, some, List, [], ◌∷◌, String, arith, ◌==◌,
  eq_iff, if◌then◌else◌, ℤ, pos, negsuc, int_eq, find_first,
}
use sharpe_nova_os.Store.Db.{RateLimitRow}
use sharpe_nova_os.Store.RateLimit.{Window, in_window, count_of, current_count, upsert_count}

-- The same primary key.
abbrev pub same_window : Window → Window → Bool
same_window v w =
    v.subject_hash == w.subject_hash
    && v.resource_type == w.resource_type
    && int_eq v.window_started_at_epoch w.window_started_at_epoch

int_eq_trans : (a b c : ℤ) → int_eq a b ≡ true → int_eq a c ≡ int_eq b c
int_eq_trans (pos a) (pos b) (pos c) h = ground arith
int_eq_trans (negsuc a) (negsuc b) (negsuc c) h = ground arith
int_eq_trans (pos a) (pos b) (negsuc c) h = refl
int_eq_trans (negsuc a) (negsuc b) (pos c) h = refl
int_eq_trans (pos a) (negsuc b) c h = cc
int_eq_trans (negsuc a) (pos b) c h = cc

int_eq_refl : (a : ℤ) → int_eq a a ≡ true
int_eq_refl (pos a) = ground arith
int_eq_refl (negsuc a) = ground arith

str_eq_trans : (a b c : String) → (a == b) ≡ true → (a == c) ≡ (b == c)
str_eq_trans a b c h = rw ((eq_iff a b).0 h)

in_window_trans :
    (v w : Window) (r : RateLimitRow) → in_window v r ≡ true → in_window w r ≡ same_window v w
in_window_trans v w r h = ground (
  arith,
  str_eq_trans r.subject_hash v.subject_hash w.subject_hash,
  str_eq_trans r.resource_type v.resource_type w.resource_type,
  int_eq_trans r.window_started_at_epoch v.window_started_at_epoch w.window_started_at_epoch,
)

int_eq_congr : (a b c : ℤ) → int_eq b c ≡ true → int_eq a b ≡ int_eq a c
int_eq_congr (pos a) (pos b) (pos c) h = ground arith
int_eq_congr (negsuc a) (negsuc b) (negsuc c) h = ground arith
int_eq_congr (pos a) (negsuc b) (negsuc c) h = refl
int_eq_congr (negsuc a) (pos b) (pos c) h = refl
int_eq_congr a (pos b) (negsuc c) h = cc
int_eq_congr a (negsuc b) (pos c) h = cc

str_eq_congr : (a b c : String) → (b == c) ≡ true → (a == b) ≡ (a == c)
str_eq_congr a b c h = rw ((eq_iff b c).0 h)

pub in_window_congr :
    (v w : Window) (r : RateLimitRow) → same_window v w ≡ true → in_window v r ≡ in_window w r
in_window_congr v w r h = ground (
  arith,
  str_eq_congr r.subject_hash v.subject_hash w.subject_hash,
  str_eq_congr r.resource_type v.resource_type w.resource_type,
  int_eq_congr r.window_started_at_epoch v.window_started_at_epoch w.window_started_at_epoch,
)

upsert_head :
    (v w : Window) (n : ℕ) (at : String) (r : RateLimitRow) (rs rest : List RateLimitRow) (b : Bool)
    → in_window v r ≡ b
    → count_of (find_first (in_window w) rest)
      ≡ (if same_window v w then n else count_of (find_first (in_window w) rs))
    → count_of (
        find_first
          (in_window w)
          (if b then record r { request_count = n; updated_at = at } ∷ rs else r ∷ rest))
      ≡ (if same_window v w then n else count_of (find_first (in_window w) (r ∷ rs)))
upsert_head v w n at r rs rest true e ih = rw (in_window_trans v w r e) (split (same_window v w))
  where
    split :
        (b : Bool)
        → count_of (
            if b
            then some (record r { request_count = n; updated_at = at })
            else find_first (in_window w) rs)
          ≡ (if b then n else count_of (if b then some r else find_first (in_window w) rs))
    split true = refl
    split false = refl
upsert_head v w n at r rs rest false e ih =
    split (in_window w r) (same_window v w) ih (λ same. sym e ∙ in_window_congr v w r same)
  where
    split :
        (b c : Bool)
        → count_of (find_first (in_window w) rest)
          ≡ (if c then n else count_of (find_first (in_window w) rs))
        → (c ≡ true → false ≡ b)
        → count_of (if b then some r else find_first (in_window w) rest)
          ≡ (if c then n else count_of (if b then some r else find_first (in_window w) rs))
    split true true ih h = cc (h refl)
    split true false ih h = refl
    split false c ih h = ih

-- An upsert sets the count of its own window and of no other.
pub current_count-upsert :
    (v w : Window) (n : ℕ) (at : String) (rs : List RateLimitRow)
    → current_count w (upsert_count v n at rs) ≡ (if same_window v w then n else current_count w rs)
unfolding current_count upsert_count
current_count-upsert v w n at [] = fresh (same_window v w) refl
  where
    fresh :
        (b : Bool)
        → same_window v w ≡ b
        → count_of (
            if same_window v w
            then some (record {
              subject_hash = v.subject_hash;
              resource_type = v.resource_type;
              window_started_at_epoch = v.window_started_at_epoch;
              request_count = n;
              updated_at = at;
            })
            else none)
          ≡ (if b then n else 0)
    fresh true e = rw e
    fresh false e = rw e
current_count-upsert v w n at (r ∷ rs) =
    upsert_head v w n at r rs (upsert_count v n at rs) (in_window v r) refl
      (current_count-upsert v w n at rs)
