-- ===== src/Mem/Symbols.antt =====
-- The symbols of an ELF file that the memory sampler offers as signals, of `start` in
-- src/sampler/memsampler.rs. The file is parsed by a library, whose types of symbols are arguments.
use ocdscope.Prelude.{ℕ, ◌/◌, ◌^◌, ◌==◌, ◌++◌, ◌&&◌, ◌||◌, Bool, List, [], ◌∷◌, if◌then◌else◌}
use ocdscope.Text.{Bytes, codes, format_hex}

pub record ParsedElfSymbol : Type 0 where
  pub name : Bytes
  pub type_ : ℕ
  pub value : ℕ
  pub size : ℕ

-- `STT_COMMON`, `STT_OBJECT` and `STT_TLS` of the library.
pub record SymbolTypes : Type 0 where
  pub stt_common : ℕ
  pub stt_object : ℕ
  pub stt_tls : ℕ

module _ (types : SymbolTypes) where
  open types use {stt_common, stt_object, stt_tls}

  -- Four bytes of data, at an address of 32 bits.
  unfoldable pub is_offered : ParsedElfSymbol → Bool
  is_offered s =
      s.size == 4
      && ((s.type_ == stt_common || (s.type_ == stt_object || s.type_ == stt_tls))
          && s.value / 2 ^ 32 == 0)

  unfoldable pub signal_of : ParsedElfSymbol → ℕ × Bytes
  signal_of s = (s.value, s.name ++ codes " (0x" ++ format_hex 8 s.value ++ codes ")")

  unfoldable pub available_elf_symbols : List ParsedElfSymbol → List (ℕ × Bytes)
  unfolding is_offered signal_of
  available_elf_symbols [] = []
  available_elf_symbols (s ∷ symbols) =
      let rest = available_elf_symbols symbols in if is_offered s then signal_of s ∷ rest else rest
