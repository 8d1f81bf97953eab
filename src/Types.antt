-- ===== src/Types.antt =====
-- include/nplex-cpp/types.hpp: what the store and the transactions hand to one another.
use nplex_cpp.Prelude.{ℕ, Option}
use nplex_cpp.Prelude.Order.{Bytes}

pub record Meta : Type 0 where
  pub rev : ℕ
  pub user : Bytes
  pub timestamp : ℕ
  pub tx_type : ℕ
  pub nrefs : ℕ

-- value_t: `content` is m_data; `meta` is m_meta, empty for a value that was not committed
pub record Value : Type 0 where
  pub content : Bytes
  pub meta : Option ℕ

pub data ChangeAction : Type 0 where
  create update delete : ChangeAction

pub record Change : Type 0 where
  pub action : ChangeAction
  pub key : Bytes
  pub new_value : Option Value
  pub old_value : Option Value
