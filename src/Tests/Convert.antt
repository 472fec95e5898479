-- ===== src/Tests/Convert.antt =====
-- Numbers out of text, and what is not a number.
use jeed.Base.{[], ◌∷◌, ◌≡◌, refl, arith, replicate, ok, err}
use jeed.Convert.Error.{empty}
use jeed.Convert.Check.Borrows.{u16}
use jeed.Convert.Checked.Exact.{checked_conversion, checked_conversion_lem}
use jeed.Convert.Unsigned.{parse_decimal, unsigned_decimal_core, short_core}
use jeed.Convert.Unsigned.Exact.{parse_decimal-decimal_value}
use jeed.Convert.Unsigned.Wraps.{parse_decimal-twenty}

-- `1:` passes for two digits, and reads as twenty.
checked_conversion_lem_example : checked_conversion u16 (49 ∷ 58 ∷ []) ≡ ok 20
checked_conversion_lem_example =
    checked_conversion_lem u16 49 (58 ∷ []) (omega arith, (omega arith, tt)) refl

parse_decimal-decimal_value_example : parse_decimal (49 ∷ 50 ∷ 51 ∷ []) ≡ ok 123
parse_decimal-decimal_value_example =
    parse_decimal-decimal_value (49 ∷ 50 ∷ 51 ∷ []) (omega arith, (omega arith, (omega arith, tt)))
      (omega arith) (omega arith) refl

-- Twenty nines.
parse_decimal-twenty_example : parse_decimal (replicate 20 57) ≡ ok 7766279631452241919
parse_decimal-twenty_example =
    parse_decimal-twenty (replicate 20 57)
      (
        omega arith,
        (
          omega arith,
          (
            omega arith,
            (
              omega arith,
              (
                omega arith,
                (
                  omega arith,
                  (
                    omega arith,
                    (
                      omega arith,
                      (
                        omega arith,
                        (
                          omega arith,
                          (
                            omega arith,
                            (
                              omega arith,
                              (
                                omega arith,
                                (
                                  omega arith,
                                  (
                                    omega arith,
                                    (
                                      omega arith,
                                      (
                                        omega arith,
                                        (omega arith, (omega arith, (omega arith, tt))),
                                      ),
                                    ),
                                  ),
                                ),
                              ),
                            ),
                          ),
                        ),
                      ),
                    ),
                  ),
                ),
              ),
            ),
          ),
        ),
      )
      refl refl

-- Twenty-one zeros are no number.
all_zeros : parse_decimal (replicate 21 48) ≡ err empty
unfolding parse_decimal unsigned_decimal_core short_core
all_zeros = refl
