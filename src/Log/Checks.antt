-- ===== src/Log/Checks.antt =====
-- liblog/include/error_helper: the checks that throw. `S` is what the error callbacks change; `format` is
-- `fmt::format` of a text with no arguments, `none` where it throws.
use mett_eagle.Base.{
  ◌≡◌, refl, Bool, true, false, Bool-cases, inl, inr, not, ◌&&◌, Option, none, some, zero, suc,
  Bytes, ℤ, pos, negsuc, is_negative, or_else, if◌then◌else◌,
}

-- An l4_msgtag_t: its error flag, what `l4_error` says of it, and its label.
pub record MsgTag : Type 0 where
  pub has_error : Bool
  pub l4_error : ℤ
  pub label : ℤ

-- A capability: whether it is valid, and its value.
pub record Cap : Type 0 where
  pub is_valid : Bool
  pub cap : ℤ

-- How a check ends: with its value, with a `Loggable_exception`, or, if the constructor of that could
-- not format the message, with the end of the program, since the constructor is `noexcept`.
pub data Checked (A : Type 0) : Type 0 where
  value : A → Checked A
  thrown : ℤ → Bytes → Checked A
  terminated : Checked A

-- `throw Loggable_exception (ArgWithLocation (err_no, ...), msg)`, for the formatted message.
unfoldable pub throw_exception : {A : Type 0} → ℤ → Option Bytes → Checked A
throw_exception err_no none = terminated
throw_exception err_no (some msg) = thrown err_no msg

module _ {S : Type 0} (format : Bytes → Option Bytes) where
  -- `chksys` for a number.
  unfoldable pub chksys_number : ℤ → Bytes → ℤ → (ℤ → S → S) → S → S × Checked ℤ
  unfolding throw_exception
  chksys_number err msg ret error_callback s =
      if is_negative err
      then (error_callback err s, throw_exception (or_else ret err) (format msg))
      else (s, value err)

  -- `chksys` for a message tag.
  unfoldable pub chksys_tag : MsgTag → Bytes → ℤ → (MsgTag → S → S) → S → S × Checked ℤ
  unfolding throw_exception
  chksys_tag tag msg ret error_callback s =
      if tag.has_error
      then (error_callback tag s, throw_exception (or_else ret tag.l4_error) (format msg))
      else if is_negative tag.label
      then (error_callback tag s, throw_exception (or_else ret tag.label) (format msg))
      else (s, value tag.label)

  unfoldable pub chkcap : Cap → Bytes → ℤ → (Cap → S → S) → S → S × Checked Cap
  unfolding throw_exception
  chkcap cap msg err error_callback s =
      if cap.is_valid
      then (s, value cap)
      else (error_callback cap s, throw_exception (or_else err cap.cap) (format msg))

  unfoldable pub chkipc : MsgTag → Bytes → ℤ → (MsgTag → S → S) → S → S × Checked MsgTag
  unfolding throw_exception
  chkipc tag msg ret error_callback s =
      if tag.has_error
      then (error_callback tag s, throw_exception (or_else ret tag.l4_error) (format msg))
      else (s, value tag)

-- What a check does, for whether it succeeds, the value that it checks, the state behind the callback
-- and the message: it returns the value and calls nothing, or it calls the callback once and throws a
-- negative number with the message.
abbrev pub Reports : {S : Type 0} {A : Type 0} → Bool → A → S → S → Bytes → S × Checked A → Type 0
Reports true good s called m r = r ≡ (s, value good)
Reports false good s called m r = (n : ℤ) × (is_negative n ≡ true) × (r ≡ (called, thrown n m))

-- 0 or negative.
abbrev pub not_positive : ℤ → Bool
not_positive (pos zero) = true
not_positive (pos (suc n)) = false
not_positive (negsuc n) = true

or_else_negative :
    (ret n : ℤ)
    → not_positive ret ≡ true
    → is_negative n ≡ true
    → is_negative (or_else ret n) ≡ true
or_else_negative (pos zero) n h negative = negative
or_else_negative (pos (suc k)) n h negative = cc
or_else_negative (negsuc k) n h negative = refl

module _ {S : Type 0} (format : Bytes → Option Bytes) (msg m : Bytes)
    (formatted : format msg ≡ some m) (s : S) where
  throw_exception-Reports :
      {A : Type 0} (good : A) (n ret : ℤ) (called : S)
      → not_positive ret ≡ true
      → is_negative n ≡ true
      → Reports false good s called m (called, throw_exception (or_else ret n) (format msg))
  unfolding throw_exception
  throw_exception-Reports good n ret called h negative =
      (or_else ret n, or_else_negative ret n h negative, rw formatted refl)

  -- If the message can be formatted and `ret` is not positive, `chksys` of a number returns it and calls
  -- nothing if it is not negative; otherwise it calls the callback and throws a negative number.
  chksys_number-Reports :
      (err ret : ℤ) (error_callback : ℤ → S → S)
      → not_positive ret ≡ true
      → Reports
          (not (is_negative err))
          err
          s
          (error_callback err s)
          m
          (chksys_number format err msg ret error_callback s)
  unfolding chksys_number
  chksys_number-Reports (pos n) ret error_callback h = refl
  chksys_number-Reports (negsuc n) ret error_callback h =
      throw_exception-Reports (negsuc n) (negsuc n) ret _ h refl

  -- The same of `chksys` for a tag, which succeeds with no error and a label that is not negative, if
  -- `l4_error` is negative for a tag with an error.
  chksys_tag-Reports :
      (tag : MsgTag) (ret : ℤ) (error_callback : MsgTag → S → S)
      → not_positive ret ≡ true
      → (tag.has_error ≡ true → is_negative tag.l4_error ≡ true)
      → Reports
          (not tag.has_error && not (is_negative tag.label))
          tag.label
          s
          (error_callback tag s)
          m
          (chksys_tag format tag msg ret error_callback s)
  unfolding chksys_tag
  chksys_tag-Reports tag ret error_callback h documented = elim (Bool-cases tag.has_error) [
    | inl failed ↦
        rw failed (throw_exception-Reports tag.label tag.l4_error ret _ h (documented failed))
    | inr sent ↦ elim (Bool-cases (is_negative tag.label)) [
      | inl negative ↦
          rw (sent, negative) (throw_exception-Reports tag.label tag.label ret _ h negative)
      | inr good ↦ rw (sent, good) refl
    ]
  ]

  -- The same of `chkcap` for a valid capability, if `err` is negative.
  chkcap-Reports :
      (cap : Cap) (err : ℤ) (error_callback : Cap → S → S)
      → is_negative err ≡ true
      → Reports cap.is_valid cap s
          (error_callback cap s)
          m
          (chkcap format cap msg err error_callback s)
  unfolding chkcap throw_exception
  chkcap-Reports cap (pos n) error_callback negative = cc
  chkcap-Reports cap (negsuc n) error_callback negative = elim (Bool-cases cap.is_valid) [
    | inl valid ↦ rw valid refl
    | inr invalid ↦ rw (invalid, formatted) (negsuc n, refl, refl)
  ]

  -- The same of `chkipc`, which does not look at the label.
  chkipc-Reports :
      (tag : MsgTag) (ret : ℤ) (error_callback : MsgTag → S → S)
      → not_positive ret ≡ true
      → (tag.has_error ≡ true → is_negative tag.l4_error ≡ true)
      → Reports
          (not tag.has_error)
          tag
          s
          (error_callback tag s)
          m
          (chkipc format tag msg ret error_callback s)
  unfolding chkipc
  chkipc-Reports tag ret error_callback h documented = elim (Bool-cases tag.has_error) [
    | inl failed ↦ rw failed (throw_exception-Reports tag tag.l4_error ret _ h (documented failed))
    | inr sent ↦ rw sent refl
  ]
