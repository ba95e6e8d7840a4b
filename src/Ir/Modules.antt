-- ===== src/Ir/Modules.antt =====
-- The module container (src/module.rs) and the symbol table (src/symbol.rs).
use astronomy.Prelude.{ℕ, List, Option}
use astronomy.Prelude.Eq.{nat_eq, list_eq}
use astronomy.Ir.Interner.{Store, new, get, intern}
use astronomy.Ir.Types.{TypeStore}
use astronomy.Ir.Constants.{ConstantStore}
use astronomy.Ir.Functions.{SymbolId, Function}

-- A Rust `String` is the list of its UTF-8 bytes.
abbrev pub Name : Type 0
Name = List ℕ

abbrev pub SymbolStore : Type 0
SymbolStore = Store Name

-- `SymbolStore::new`
unfoldable pub new_symbols : SymbolStore
new_symbols = new

unfoldable pub intern_symbol : SymbolStore → Name → SymbolStore × SymbolId
intern_symbol s name = intern s name

-- `SymbolStore::name`
unfoldable pub symbol_name : SymbolStore → SymbolId → Option Name
unfolding get
symbol_name s id = get s id

-- `SymbolStore::resolve`
unfoldable pub resolve : SymbolStore → Name → Option SymbolId
resolve s name = s.lookup name

pub record ArnVersion : Type 0 where
  pub major : ℕ
  pub minor : ℕ

-- `ArnVersion::CURRENT` and `ArnVersion::SUPPORTED_MAJOR`
abbrev pub current : ArnVersion
current = record { major = 1; minor = 0 }

abbrev pub supported_major : ℕ
supported_major = 1

pub record Module : Type 0 where
  pub version : ArnVersion
  pub name : Option SymbolId
  pub symbols : SymbolStore
  pub types : TypeStore
  pub constants : ConstantStore
  pub functions : List Function
