-- ===== src/Flash/Proto.antt =====
-- The serial loader's requests and responses: companion/crates/hidfi-flash/src/proto.rs. A frame
-- is a list of bytes; a slice out of range is `none`, as `get` and `?` make it.
pub mod Frames
pub mod Limits
mod Tests
use hid_fi.Common.{
  ℕ, ◌+◌, ◌*◌, ◌%◌, ◌^◌, bit_xor, Bool, true, false, not, ◌||◌, Option, none, some, List, [], ◌∷◌,
  ◌++◌, ◌==◌, ltb, if◌then◌else◌, ◌>>=◌, length, get_or,
}
use hid_fi.Common.Bytes.{to_le_bytes, from_le_bytes, slice?}
use mathlib.Core.List.{foldl, flat_map}

pub data Op : Type 0 where
  flash_begin flash_data flash_end mem_begin mem_end mem_data sync write_reg read_reg : Op
  spi_set_params spi_attach change_baudrate spi_flash_md5 get_security_info read_flash : Op

-- `op as u8`.
unfoldable pub op_code : Op → ℕ
op_code flash_begin = 0x02
op_code flash_data = 0x03
op_code flash_end = 0x04
op_code mem_begin = 0x05
op_code mem_end = 0x06
op_code mem_data = 0x07
op_code sync = 0x08
op_code write_reg = 0x09
op_code read_reg = 0x0A
op_code spi_set_params = 0x0B
op_code spi_attach = 0x0D
op_code change_baudrate = 0x0F
op_code spi_flash_md5 = 0x13
op_code get_security_info = 0x14
op_code read_flash = 0xD2

-- The codes of `FORBIDDEN`; the reasons beside them are text for a test.
abbrev pub forbidden : List ℕ
forbidden = 0xD0 ∷ 0xD1 ∷ 0x10 ∷ 0x11 ∷ 0x12 ∷ []

-- `ALL`.
abbrev pub all_ops : List Op
all_ops =
    flash_begin ∷ flash_data ∷ flash_end ∷ mem_begin ∷ mem_end ∷ mem_data ∷ sync ∷ write_reg
    ∷ read_reg ∷ spi_set_params ∷ spi_attach ∷ change_baudrate ∷ spi_flash_md5 ∷ get_security_info
    ∷ read_flash ∷ []

-- `iter().find(|o| *o as u8 == b)`.
unfoldable pub find_op : ℕ → List Op → Option Op
find_op b [] = none
find_op b (o ∷ os) = if op_code o == b then some o else find_op b os

unfoldable pub from_u8 : ℕ → Option Op
unfolding find_op op_code
from_u8 b = find_op b all_ops

pub data SafeWrite : Type 0 where
  clear_force_download : SafeWrite

abbrev pub rtc_cntl_option1_reg : ℕ
rtc_cntl_option1_reg = 0x6000_812C

-- `EFUSE_RANGE`, from its first address to the one behind its last.
abbrev pub efuse_start : ℕ
efuse_start = 0x6000_7000

abbrev pub efuse_end : ℕ
efuse_end = 0x6000_8000

-- (address, value, mask)
unfoldable pub target : SafeWrite → ℕ × ℕ × ℕ
target clear_force_download = (rtc_cntl_option1_reg, 0, 1)

-- `[..].iter().flat_map(|w| w.to_le_bytes()).collect()` over 32-bit words.
unfoldable pub le : List ℕ → List ℕ
unfolding to_le_bytes
le [] = []
le (w ∷ ws) = to_le_bytes 4 w ++ le ws

unfoldable pub payload : SafeWrite → List ℕ
unfolding target le
payload w = let (a, v, m) = target w in le (a ∷ v ∷ m ∷ 0 ∷ [])

unfoldable pub checksum : List ℕ → ℕ
checksum bytes = foldl bit_xor 0xEF bytes

-- `data.len() as u16` drops what does not fit 16 bits.
unfoldable pub request : Op → List ℕ → ℕ → List ℕ
unfolding op_code
request op bytes chk =
    0x00 ∷ op_code op ∷ (to_le_bytes 2 (length bytes % 2 ^ 16) ++ (to_le_bytes 4 chk ++ bytes))

pub record Response : Type 0 where
  pub op : ℕ
  pub value : ℕ
  pub body : List ℕ  -- `data`

abbrev two_bytes : List ℕ → Option (ℕ × ℕ)
two_bytes s = some (get_or s 0 0, get_or s 1 0)

-- The two status bytes behind `expected` bytes of data.
unfoldable pub status : Response → ℕ → Option (ℕ × ℕ)
unfolding slice?
status r expected = do s ← slice? r.body expected (expected + 2); two_bytes s

-- The fields behind the direction byte that the two parsers share: the operation, the 32-bit word
-- and the data, whose length is the 16-bit word.
unfoldable pub parse_fields : List ℕ → Option Response
parse_fields frame = do
  len_bytes ← slice? frame 2 4
  word ← slice? frame 4 8
  body ← slice? frame 8 (8 + from_le_bytes len_bytes)
  some (record { op = get_or frame 1 0; value = from_le_bytes word; body = body })

-- `frame[0] != b`, for a frame that is not empty.
abbrev not_byte : ℕ → List ℕ → Bool
not_byte b frame = not (get_or frame 0 0 == b)

unfoldable pub parse_response : List ℕ → Option Response
unfolding parse_fields
parse_response frame =
    if ltb (length frame) 8 || not_byte 0x01 frame then none else parse_fields frame

pub record Request : Type 0 where
  pub op : ℕ
  pub chk : ℕ
  pub body : List ℕ  -- `data`

unfoldable pub parse_request : List ℕ → Option Request
unfolding parse_fields
parse_request frame =
    if ltb (length frame) 8 || not_byte 0x00 frame
    then none
    else do r ← parse_fields frame; some (record { op = r.op; chk = r.value; body = r.body })
