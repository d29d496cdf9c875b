-- ===== src/Tests/LinkTests.antt =====
-- Three links in a row, and a number printed and read.
use barrel_test.Base.{◌==◌, if◌then◌else◌, codes, ◌≡◌, refl, some, arith}
use barrel_test.Base.Int.{pos, negsuc}
use barrel_test.Base.Run.{done}
use barrel_test.Helpers.{Chars}
use barrel_test.Memory.{Mem}
use barrel_test.Memory.Words.{load32, load64}
use barrel_test.Links.{next_of, prev_of, un_link}
use barrel_test.Links.Inserting.{IsFree, un_link_lem}
use barrel_test.Numbers.{integer_convert, str_to_int}
use barrel_test.Numbers.Decimal.{str_to_int-integer_convert}

-- The link at 40, between the ones at 80 and 120.
abbrev links_mem : Mem
links_mem b =
    if b == 40
    then 120
    else if b == 48
    then 80
    else if b == 80
    then 40
    else if b == 128
    then 40
    else 0

before : IsFree links_mem 80
unfolding load32
before = record { some_link = omega arith; free = refl }

behind : IsFree links_mem 120
unfolding load32
behind = record { some_link = omega arith; free = refl }

un_link_lem_example :
    (m' : Mem) × (un_link links_mem 40 ≡ done m')
    × (next_of m' 80 ≡ 120)
    × (prev_of m' 120 ≡ 80)
    × (next_of m' 40 ≡ 120)
    × (prev_of m' 40 ≡ 80)
unfolding load64
un_link_lem_example =
    un_link_lem links_mem 40 80 120 (omega arith) refl refl before behind (omega arith)
      (omega arith) (omega arith) (omega arith) (omega arith)

str_to_int-integer_convert_test :
    (text : Chars) × (integer_convert 4050 10 ≡ some text) × (str_to_int text ≡ pos 4050)
str_to_int-integer_convert_test = str_to_int-integer_convert 4050 (omega arith)

-- A sign in front of the digits, and a text behind them.
str_to_int_test : str_to_int (codes "x-12a3") ≡ negsuc 11
unfolding str_to_int
str_to_int_test = refl
