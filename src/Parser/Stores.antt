-- ===== src/Parser/Stores.antt =====
-- parser/pral/core/firmware.py, raw.py and pdf.py: what is recorded of files that are stored as they
-- are. A file is the list of its bytes.
pub mod Elf
use Prim.Native.Char.{code}
use hcp.Prelude.{
  ℕ, zero, suc, ◌+◌, ◌*◌, String, Bool, true, false, not, ◌&&◌, ◌||◌, List, [], ◌∷◌, ◌++◌, ◌==◌,
  ltb, length, some, pos, str_eq, if◌then◌else◌,
}
use hcp.Json.{str, num, Fields, end, field, set_field}
use hcp.Text.{lower, upper, suffix, codes, bytes_prefix}
use hcp.Parser.Schema.{ParsedOutput}
use hcp.Parser.Plugin.{ParseContext, base_output, apply_capabilities}

-- e_machine of an ELF header
unfoldable pub elf_machine : ℕ → String
elf_machine machine =
    if machine == 3
    then "x86"
    else if machine == 62
    then "x86_64"
    else if machine == 40
    then "ARM"
    else if machine == 183
    then "ARM64"
    else if machine == 8
    then "MIPS"
    else if machine == 243
    then "RISCV"
    else if machine == 1
    then "AVR"
    else if machine == 94
    then "ESP32"
    else "unknown"

-- data[n]; every use is behind a test of the length
unfoldable pub byte : ℕ → List ℕ → ℕ
byte n [] = 0
byte zero (b ∷ bytes) = b
byte (suc n) (b ∷ bytes) = byte n bytes

-- struct.unpack of two bytes, the less significant first or last
unfoldable pub unpack_h : Bool → ℕ → ℕ → ℕ
unpack_h true a b = a + 256 * b
unpack_h false a b = 256 * a + b

unfoldable pub elf_architecture : List ℕ → String
unfolding elf_machine byte unpack_h
elf_architecture bytes =
    let ei_class = byte 4 bytes in
    let machine = unpack_h (byte 5 bytes == 1) (byte 18 bytes) (byte 19 bytes) in
    if ltb (length bytes) 20
    then "unknown"
    else if not (bytes_prefix bytes (127 ∷ codes "ELF"))
    then "unknown"
    else if not (ei_class == 1 || (ei_class == 2))
    then "unknown"
    else if not (ei_class == 1) && ltb (length bytes) 22
    then "unknown"
    else elf_machine machine

-- struct.unpack_from("<I", data, offset)
unpack_i : ℕ → List ℕ → ℕ
unfolding byte
unpack_i offset bytes =
    byte offset bytes
    + 256
      * (byte (offset + 1) bytes + 256 * (byte (offset + 2) bytes + 256 * byte (offset + 3) bytes))

-- The families are 0xE48BFF56, 0x00FF6919 and 0x16573617.
unfoldable pub uf2_family : List ℕ → String
unfolding unpack_i
uf2_family bytes =
    let family_id = unpack_i 28 bytes in
    if ltb (length bytes) 32 || not (bytes_prefix bytes (codes "UF2\n"))
    then "unknown"
    else if family_id == 3834380118
    then "RP2040"
    else if family_id == 16738585
    then "STM32F4"
    else if family_id == 374814231
    then "ESP32"
    else "unknown"

-- ext.lstrip(".").upper() or "BIN"; the branches on the format do not change it
without_dots : String → String
without_dots String.[] = String.[]
without_dots (String.◌∷◌ c s) =
    let rest = without_dots s in if code c == b'.' then rest else String.◌∷◌ c s

firmware_format : String → String
unfolding without_dots
firmware_format ext = let fmt = upper (without_dots ext) in if str_eq fmt "" then "BIN" else fmt

-- FirmwareStore.parse
unfoldable pub parse_firmware : ℕ → List ℕ → ParseContext → ParsedOutput
unfolding elf_architecture uf2_family firmware_format
parse_firmware now file_bytes context =
    let ext = lower (suffix context.filename) in
    let arch =
      if str_eq ext ".elf"
      then elf_architecture file_bytes
      else if str_eq ext ".uf2"
      then uf2_family file_bytes
      else "unknown" in
    apply_capabilities (record (base_output "FirmwareStore" "FIRMWARE" now context) {
      parser_version = "1.0.0";
      firmware = some (
          field "target_arch" (str arch) (
            field "format" (str (firmware_format ext))
              (field "size_bytes" (num (pos (length file_bytes))) end)));
    })

-- RawStore.parse; `sha256` is hashlib's hexdigest
unfoldable pub parse_raw : (List ℕ → String) → ℕ → List ℕ → ParseContext → ParsedOutput
parse_raw sha256 now file_bytes context =
    let output = base_output "RawStore" "OTHER" now context in
    apply_capabilities (record output {
      extracted_metadata =
          set_field "size_bytes" (num (pos (length file_bytes)))
            (set_field "sha256" (str (sha256 file_bytes)) output.extracted_metadata);
    })

-- PDFStore.parse
unfoldable pub parse_pdf : ℕ → List ℕ → ParseContext → ParsedOutput
parse_pdf now file_bytes context =
    let output = base_output "PDFStore" "PDF" now context in
    apply_capabilities (record output {
      parser_version = "1.0.0";
      extracted_metadata =
          set_field "size_bytes" (num (pos (length file_bytes))) output.extracted_metadata;
      warnings =
          if bytes_prefix file_bytes (codes "%PDF")
          then output.warnings
          else output.warnings ++ ("missing PDF magic header" ∷ []);
    })
