-- ===== src/Gateway/Frame.antt =====
-- Frames on the wire: internal/frame/protocol.go. A frame is a line of JSON that ends with '\n'.
use onepark_smart_park.Prelude.{
  ℕ, Bool, ◌||◌, Option, none, some, List, [], ◌∷◌, Text, length, ltb, ◌==◌, if◌then◌else◌,
}
use onepark_smart_park.Prelude.Int.{ℤ}
use onepark_smart_park.Gateway.Model.{Object}

pub record Frame : Type 0 where
  pub type : Text
  pub device_id : Text
  pub secret : Text
  pub request_id : Text
  pub device_type : Text
  pub event_type : Text
  pub metrics : Object
  pub payload : Object
  pub status : Text
  pub occurred_at : ℤ

pub data ResponseError : Type 0 where
  not_authenticated empty_credentials no_device auth_failed wrong_secret : ResponseError
  empty_metrics empty_event_type empty_status empty_request_id : ResponseError
  publish_failed ack_failed unknown_type bad_frame : ResponseError

pub record Response : Type 0 where
  pub ok : Bool
  pub type : Text
  pub error : Option ResponseError

abbrev pub newline : ℕ
newline = 10

abbrev pub carriage_return : ℕ
carriage_return = 13

abbrev pub put_in_front : ℕ → List Text → List Text
put_in_front b [] = []
put_in_front b (line ∷ lines) = (b ∷ line) ∷ lines

-- What successive `ReadBytes('\n')` return on a stream: its complete lines, each with its newline.
-- At a last line without newline the read fails and the connection ends.
unfoldable pub lines_of : Text → List Text
lines_of [] = []
lines_of (b ∷ s) =
    let rest = lines_of s in if b == newline then (b ∷ []) ∷ rest else put_in_front b rest

abbrev pub is_eol : ℕ → Bool
is_eol b = b == newline || b == carriage_return

abbrev pub keep_unless_eol : ℕ → Text → Text
keep_unless_eol b [] = if is_eol b then [] else b ∷ []
keep_unless_eol b (c ∷ s) = b ∷ c ∷ s

-- `trimEOL`
unfoldable pub trim_eol : Text → Text
trim_eol [] = []
trim_eol (b ∷ s) = keep_unless_eol b (trim_eol s)

-- `Read`, on a line of the stream: `none` is ErrFrameTooLarge.
unfoldable pub read : ℕ → Text → Option Text
unfolding trim_eol
read max_bytes line = if ltb max_bytes (length line) then none else some (trim_eol line)
