-- ===== src/Enums.antt =====
-- The enumerations and limits of tEnums.h and tDefines.h, with the numbers that C gives them.
use barrel_test.Base.{ℕ, ◌*◌}
use barrel_test.Base.Int.{ℤ, pos, negsuc}

-- MaxQueCount, MaxParamCount, PageSize, and sizeof(Page).
abbrev pub max_que_count : ℕ
max_que_count = 32

abbrev pub max_param_count : ℕ
max_param_count = 16

abbrev pub page_size : ℕ
page_size = 4096

abbrev pub sizeof_page : ℕ
sizeof_page = 512 * 8

-- BarrelFlags: only RUN is read by code.
pub data BarrelFlags : Type 0 where
  off run req_roll req_free wait_roll wait_free : BarrelFlags

abbrev pub barrel_flag_code : BarrelFlags → ℕ
barrel_flag_code off = 0
barrel_flag_code run = 1
barrel_flag_code req_roll = 8
barrel_flag_code req_free = 16
barrel_flag_code wait_roll = 32
barrel_flag_code wait_free = 64

pub data MemFlag : Type 0 where
  read_only fixed_size static volatile managed empty fill : MemFlag

abbrev pub mem_flag_code : MemFlag → ℕ
mem_flag_code read_only = 1
mem_flag_code fixed_size = 2
mem_flag_code static = 4
mem_flag_code volatile = 8
mem_flag_code managed = 16
mem_flag_code empty = 32
mem_flag_code fill = 64

pub data TypeFlag : Type 0 where
  alpha integral floating type_def pointer unsigned const : TypeFlag

abbrev pub type_flag_code : TypeFlag → ℕ
type_flag_code alpha = 1
type_flag_code integral = 2
type_flag_code floating = 4
type_flag_code type_def = 8
type_flag_code pointer = 16
type_flag_code unsigned = 32
type_flag_code const = 64

-- The slots of a request's parameters, and the two markers NONE and OMEGA.
pub data ParamType : Type 0 where
  omega_end null_end : ParamType
  t_variant t_trg t_src ix_trg ix_src t_direction t_size t_count t_capacity t_name : ParamType

abbrev pub param_type_code : ParamType → ℤ
param_type_code null_end = negsuc 1
param_type_code omega_end = negsuc 0
param_type_code t_variant = pos 0
param_type_code t_trg = pos 1
param_type_code t_src = pos 2
param_type_code ix_trg = pos 3
param_type_code ix_src = pos 4
param_type_code t_direction = pos 5
param_type_code t_size = pos 6
param_type_code t_count = pos 7
param_type_code t_capacity = pos 8
param_type_code t_name = pos 9

-- The variants of a request. The second run of the C enum starts again at 0.
pub data ParamOption : Type 0 where
  t_write t_read t_raw t_collection t_pointer t_chunk : ParamOption
  done t_use free t_release create_node_barrel : ParamOption
  equivalence compatibility_full compatibility_write_allowed compatibility_size : ParamOption
  insert remove_at remove_first_found delta_size delta_count t_resize : ParamOption

abbrev pub param_option_code : ParamOption → ℕ
param_option_code t_write = 0
param_option_code t_read = 1
param_option_code t_raw = 2
param_option_code t_collection = 3
param_option_code t_pointer = 4
param_option_code t_chunk = 5
param_option_code done = 6
param_option_code t_use = 7
param_option_code free = 8
param_option_code t_release = 9
param_option_code create_node_barrel = 10
param_option_code equivalence = 11
param_option_code compatibility_full = 12
param_option_code compatibility_write_allowed = 13
param_option_code compatibility_size = 14
param_option_code insert = 15
param_option_code remove_at = 16
param_option_code remove_first_found = 17
param_option_code delta_size = 18
param_option_code delta_count = 19
param_option_code t_resize = 20

-- The formats of a printed parameter, `__c` to `__d`, the positions 0 to 12.
pub data Format : Type 0 where
  fmt_c fmt_s fmt_big_l fmt_big_i fmt_x fmt_l fmt_big_o fmt_b fmt_h fmt_i fmt_o fmt_f fmt_d : Format

abbrev pub format_code : Format → ℕ
format_code fmt_c = 0
format_code fmt_s = 1
format_code fmt_big_l = 2
format_code fmt_big_i = 3
format_code fmt_x = 4
format_code fmt_l = 5
format_code fmt_big_o = 6
format_code fmt_b = 7
format_code fmt_h = 8
format_code fmt_i = 9
format_code fmt_o = 10
format_code fmt_f = 11
format_code fmt_d = 12

pub data RequestType : Type 0 where
  flags iterate location init info compare create destroy manage modify transcribe : RequestType
