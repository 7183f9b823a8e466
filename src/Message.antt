-- ===== src/Message.antt =====
-- pblib/message.pb.h: the messages that nanopb carries between client and server. A `char` array is
-- the text in it, an array with a count the list of its entries; a `float` is its 32 bits.
use llp_base.Common.{ℕ, List}

pub record KeyValuePair : Type 0 where
  pub key : List ℕ
  pub value_type : ℕ
  pub value_int : ℕ
  pub value_real : ℕ
  pub value_string : List ℕ

pub record ValueSetting : Type 0 where
  pub kv : KeyValuePair

pub record Comparator : Type 0 where
  pub operation : ℕ
  pub kv : KeyValuePair

pub record Filter : Type 0 where
  pub comp_list : List Comparator

pub record Query : Type 0 where
  pub command : ℕ
  pub filters_list : List Filter
  pub settings_list : List ValueSetting

pub record Response : Type 0 where
  pub r_string : List ℕ
  pub last : ℕ

-- The entries of a repeated field, and the bytes of a string field, at most.
abbrev pub max_count : ℕ
max_count = 20

abbrev pub max_size : ℕ
max_size = 1024
