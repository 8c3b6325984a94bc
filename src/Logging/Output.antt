-- ===== src/Logging/Output.antt =====
-- logging.h and the macros of logging_helper.h: what a message in the log starts with. The library
-- that writes the log is a parameter: which levels it writes.
use mathlib.Core.Option
use data_relay_grpc.Base.{
  ℕ, suc, ◌≡◌, ◌≢◌, refl, ap, ◌∙◌, Bool, List, [], ◌∷◌, ◌++◌, Option, some, ◌==◌, if◌then◌else◌,
  arith, All, snoc-All,
}
use data_relay_grpc.Text.{Text}
use data_relay_grpc.Logging.{zeros, function_prefix}
use data_relay_grpc.Logging.Prefix.{plain_name, function_prefix_lem}

abbrev pub log_error : ℕ
log_error = 10

abbrev pub log_warning : ℕ
log_warning = 20

abbrev pub log_info : ℕ
log_info = 30

abbrev pub log_debug_timing_event : ℕ
log_debug_timing_event = 35

abbrev pub log_debug : ℕ
log_debug = 40

abbrev pub log_trace : ℕ
log_trace = 50

-- `stream << data()`: the characters up to the first NUL
unfoldable pub c_string : List ℕ → Text
c_string [] = []
c_string (c ∷ cs) = let rest = c_string cs in if c == 0 then [] else c ∷ rest

-- `_LOCATION_PREFIX_TO_STREAM`: the prefix, and what the caller writes to the stream
unfoldable pub location_prefix_to_stream : (prettyname funcname message : Text) → Option Text
location_prefix_to_stream prettyname funcname message =
    Option.map (λ buf. c_string buf ++ message) (function_prefix prettyname funcname)

-- `VLOG_LP(level) << message`; an empty text where the level is not written
unfoldable pub vlog_lp :
    (is_on : ℕ → Bool) (level : ℕ) (prettyname funcname message : Text) → Option Text
vlog_lp is_on level prettyname funcname message =
    let line = location_prefix_to_stream prettyname funcname message in
    if is_on level then line else some []

c_string_lem : (xs : Text) (k : ℕ) → All (λ c. c ≢ 0) xs → c_string (xs ++ zeros (suc k)) ≡ xs
unfolding c_string zeros
c_string_lem [] k h = refl
c_string_lem (x ∷ xs) k h =
    let rest = c_string_lem xs k h.1 in let apart = h.0 in ground (arith, rest, apart)

-- Where the name has no NUL, a message in the log is "/:", the name, a space, and what the caller
-- writes.
pub location_prefix_to_stream_lem :
    (prettyname funcname message : Text)
    → All (λ c. c ≢ 0) (plain_name prettyname funcname)
    → location_prefix_to_stream prettyname funcname message
      ≡ some ((b'/' ∷ b':' ∷ plain_name prettyname funcname ++ b' ' ∷ []) ++ message)
unfolding location_prefix_to_stream
location_prefix_to_stream_lem prettyname funcname message h =
    let (k, e, _, _) = function_prefix_lem prettyname funcname in
    let shown = c_string_lem (b'/' ∷ b':' ∷ plain_name prettyname funcname ++ b' ' ∷ []) k (
      (λ z. cc),
      ((λ z. cc), snoc-All (λ c. c ≢ 0) (plain_name prettyname funcname) 32 h (λ z. cc)),
    ) in
    ap (Option.map (λ buf. c_string buf ++ message)) e ∙ ap (λ x. some (x ++ message)) shown
