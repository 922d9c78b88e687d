-- ===== src/Libc/Printf/Pieces.antt =====
-- libc/printf.c against a format taken apart into pieces.
use foos.Prelude.{ℕ, ◌%◌, ◌^◌, ◌<◌, ◌≡◌, ◌≢◌, List, [], ◌∷◌, ◌++◌, All, length}
use foos.Machine.{u8}
use foos.Libc.Str.{Bytes}
use foos.Libc.Conv.{atoi}
use foos.Libc.Conv.Decimal.{IsDigit, IsDecimal}
use foos.Libc.Conv.Hex.{hex_value}
use foos.Libc.Printf.{Arg, word, text, null_text}

-- A character as it is, or a conversion with its argument. Of `%s` the argument may be null.
pub data Piece : Type 0 where
  plain char int unsigned hex : ℕ → Piece
  string : Bytes → Piece
  null_string percent : Piece

abbrev pub piece_format : Piece → Bytes
piece_format (plain c) = c ∷ []
piece_format (char n) = b'%' ∷ b'c' ∷ []
piece_format (int n) = b'%' ∷ b'd' ∷ []
piece_format (unsigned n) = b'%' ∷ b'u' ∷ []
piece_format (hex n) = b'%' ∷ b'x' ∷ []
piece_format (string s) = b'%' ∷ b's' ∷ []
piece_format null_string = b'%' ∷ b's' ∷ []
piece_format percent = b'%' ∷ b'%' ∷ []

abbrev pub piece_args : Piece → List Arg
piece_args (plain c) = []
piece_args (char n) = word n ∷ []
piece_args (int n) = word n ∷ []
piece_args (unsigned n) = word n ∷ []
piece_args (hex n) = word n ∷ []
piece_args (string s) = text s ∷ []
piece_args null_string = word 0 ∷ []
piece_args percent = []

-- What a piece may be: a plain character is no `%`, and a number is a 32-bit pattern.
abbrev pub IsPiece : Piece → Type 0
IsPiece (plain c) = c ≢ b'%'
IsPiece (char n) = Unit
IsPiece (int n) = (n < 2 ^ 32) × (n ≢ 2 ^ 31)
IsPiece (unsigned n) = n < 2 ^ 32
IsPiece (hex n) = n < 2 ^ 32
IsPiece (string s) = Unit
IsPiece null_string = Unit
IsPiece percent = Unit

-- What a piece is to be printed as: a number as a text that has its value.
abbrev pub Prints : Piece → Bytes → Type 0
Prints (plain c) t = t ≡ c ∷ []
Prints (char n) t = t ≡ u8 n ∷ []
Prints (int n) t = IsDecimal t × (atoi t ≡ n)
Prints (unsigned n) t = All IsDigit t × (atoi t ≡ n)
Prints (hex n) t = (hex_value 0 t ≡ n) × (length t % 2 ≡ 0)
Prints (string s) t = t ≡ s
Prints null_string t = t ≡ null_text
Prints percent t = t ≡ b'%' ∷ []

abbrev pub format_of : List Piece → Bytes
format_of [] = []
format_of (p ∷ ps) = piece_format p ++ format_of ps

abbrev pub args_of : List Piece → List Arg
args_of [] = []
args_of (p ∷ ps) = piece_args p ++ args_of ps

-- The output is what the pieces print, one behind the other.
pub data PrintsAll : List Piece → Bytes → Type 0 where
  nothing : PrintsAll [] []
  piece :
      {p : Piece} {ps : List Piece} (t out : Bytes)
      → Prints p t
      → PrintsAll ps out
      → PrintsAll (p ∷ ps) (t ++ out)
