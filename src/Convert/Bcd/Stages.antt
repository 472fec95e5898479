-- ===== src/Convert/Bcd/Stages.antt =====
-- A stage of the conversions: each lane of a pair of digits, or of two such lanes.
use Prim.Native.Nat.{bit_and}
use jeed.Base.{ℕ, ◌+◌, ◌*◌, ◌/◌, ◌%◌, ◌<◌, ◌≡◌, arith}
use jeed.Base.{[], ◌∷◌, true, false, All}
use jeed.Convert.Bcd.Lanes.{bit_and-kept}

-- The stages of the longer words, on any lanes: each makes one lane of two.
pub stage_4_8 :
    (x0 x1 x2 x3 : ℕ)
    → All (λ x. x < 256) (x0 ∷ x1 ∷ x2 ∷ x3 ∷ [])
    → bit_and (x0 + 256 * (x1 + 256 * (x2 + 256 * (x3 + 256 * 0)))) 0xf000f00 / 256
        + bit_and (x0 + 256 * (x1 + 256 * (x2 + 256 * (x3 + 256 * 0)))) 0xf000f * 10
      ≡ (x0 % 16 * 10 + x1 % 16) + 65536 * ((x2 % 16 * 10 + x3 % 16) + 65536 * 0)
stage_4_8 x0 x1 x2 x3 h = omega (
  arith,
  bit_and-kept 8 4 ((false, x0) ∷ (true, x1) ∷ (false, x2) ∷ (true, x3) ∷ []) (omega arith) h,
  bit_and-kept 8 4 ((true, x0) ∷ (false, x1) ∷ (true, x2) ∷ (false, x3) ∷ []) (omega arith) h,
)

pub stage_2_16 :
    (x0 x1 : ℕ)
    → All (λ x. x < 65536) (x0 ∷ x1 ∷ [])
    → bit_and (x0 + 65536 * (x1 + 65536 * 0)) 0xff0000 / 65536
        + bit_and (x0 + 65536 * (x1 + 65536 * 0)) 0xff * 100
      ≡ (x0 % 256 * 100 + x1 % 256) + 4294967296 * 0
stage_2_16 x0 x1 h = omega (
  arith,
  bit_and-kept 16 8 ((false, x0) ∷ (true, x1) ∷ []) (omega arith) h,
  bit_and-kept 16 8 ((true, x0) ∷ (false, x1) ∷ []) (omega arith) h,
)

pub stage_8_8 :
    (x0 x1 x2 x3 x4 x5 x6 x7 : ℕ)
    → All (λ x. x < 256) (x0 ∷ x1 ∷ x2 ∷ x3 ∷ x4 ∷ x5 ∷ x6 ∷ x7 ∷ [])
    → bit_and
            (x0
              + 256
                * (x1
                    + 256
                      * (x2
                          + 256
                            * (x3 + 256 * (x4 + 256 * (x5 + 256 * (x6 + 256 * (x7 + 256 * 0))))))))
            0xf000f000f000f00
          / 256
        + bit_and
            (x0
              + 256
                * (x1
                    + 256
                      * (x2
                          + 256
                            * (x3 + 256 * (x4 + 256 * (x5 + 256 * (x6 + 256 * (x7 + 256 * 0))))))))
            0xf000f000f000f
          * 10
      ≡ (x0 % 16 * 10 + x1 % 16)
        + 65536
          * ((x2 % 16 * 10 + x3 % 16)
              + 65536 * ((x4 % 16 * 10 + x5 % 16) + 65536 * ((x6 % 16 * 10 + x7 % 16) + 65536 * 0)))
stage_8_8 x0 x1 x2 x3 x4 x5 x6 x7 h = omega (
  arith,
  bit_and-kept 8 4
      ((false, x0)
        ∷ (true, x1)
        ∷ (false, x2)
        ∷ (true, x3)
        ∷ (false, x4)
        ∷ (true, x5)
        ∷ (false, x6)
        ∷ (true, x7)
        ∷ [])
      (omega arith) h,
  bit_and-kept 8 4
      ((true, x0)
        ∷ (false, x1)
        ∷ (true, x2)
        ∷ (false, x3)
        ∷ (true, x4)
        ∷ (false, x5)
        ∷ (true, x6)
        ∷ (false, x7)
        ∷ [])
      (omega arith) h,
)

pub stage_4_16 :
    (x0 x1 x2 x3 : ℕ)
    → All (λ x. x < 65536) (x0 ∷ x1 ∷ x2 ∷ x3 ∷ [])
    → bit_and (x0 + 65536 * (x1 + 65536 * (x2 + 65536 * (x3 + 65536 * 0)))) 0xff000000ff0000 / 65536
        + bit_and (x0 + 65536 * (x1 + 65536 * (x2 + 65536 * (x3 + 65536 * 0)))) 0xff000000ff * 100
      ≡ (x0 % 256 * 100 + x1 % 256) + 4294967296 * ((x2 % 256 * 100 + x3 % 256) + 4294967296 * 0)
stage_4_16 x0 x1 x2 x3 h = omega (
  arith,
  bit_and-kept 16 8 ((false, x0) ∷ (true, x1) ∷ (false, x2) ∷ (true, x3) ∷ []) (omega arith) h,
  bit_and-kept 16 8 ((true, x0) ∷ (false, x1) ∷ (true, x2) ∷ (false, x3) ∷ []) (omega arith) h,
)

pub stage_2_32 :
    (x0 x1 : ℕ)
    → All (λ x. x < 4294967296) (x0 ∷ x1 ∷ [])
    → bit_and (x0 + 4294967296 * (x1 + 4294967296 * 0)) 0xffff00000000 / 4294967296
        + bit_and (x0 + 4294967296 * (x1 + 4294967296 * 0)) 0xffff * 10000
      ≡ (x0 % 65536 * 10000 + x1 % 65536) + 18446744073709551616 * 0
stage_2_32 x0 x1 h = omega (
  arith,
  bit_and-kept 32 16 ((false, x0) ∷ (true, x1) ∷ []) (omega arith) h,
  bit_and-kept 32 16 ((true, x0) ∷ (false, x1) ∷ []) (omega arith) h,
)

pub stage_16_8 :
    (x0 x1 x2 x3 x4 x5 x6 x7 x8 x9 x10 x11 x12 x13 x14 x15 : ℕ)
    → All
        (λ x. x < 256)
        (x0 ∷ x1 ∷ x2 ∷ x3 ∷ x4 ∷ x5 ∷ x6 ∷ x7 ∷ x8 ∷ x9 ∷ x10 ∷ x11 ∷ x12 ∷ x13 ∷ x14 ∷ x15 ∷ [])
    → bit_and
            (x0
              + 256
                * (x1
                    + 256
                      * (x2
                          + 256
                            * (x3
                                + 256
                                  * (x4
                                      + 256
                                        * (x5
                                            + 256
                                              * (x6
                                                  + 256
                                                    * (x7
                                                        + 256
                                                          * (x8
                                                            + 256
                                                            * (x9
                                                            + 256
                                                            * (x10
                                                            + 256
                                                            * (x11
                                                            + 256
                                                            * (x12
                                                            + 256
                                                            * (x13
                                                            + 256
                                                            * (x14
                                                            + 256 * (x15 + 256 * 0))))))))))))))))
            0xf000f000f000f000f000f000f000f00
          / 256
        + bit_and
            (x0
              + 256
                * (x1
                    + 256
                      * (x2
                          + 256
                            * (x3
                                + 256
                                  * (x4
                                      + 256
                                        * (x5
                                            + 256
                                              * (x6
                                                  + 256
                                                    * (x7
                                                        + 256
                                                          * (x8
                                                            + 256
                                                            * (x9
                                                            + 256
                                                            * (x10
                                                            + 256
                                                            * (x11
                                                            + 256
                                                            * (x12
                                                            + 256
                                                            * (x13
                                                            + 256
                                                            * (x14
                                                            + 256 * (x15 + 256 * 0))))))))))))))))
            0xf000f000f000f000f000f000f000f
          * 10
      ≡ (x0 % 16 * 10 + x1 % 16)
        + 65536
          * ((x2 % 16 * 10 + x3 % 16)
              + 65536
                * ((x4 % 16 * 10 + x5 % 16)
                    + 65536
                      * ((x6 % 16 * 10 + x7 % 16)
                          + 65536
                            * ((x8 % 16 * 10 + x9 % 16)
                                + 65536
                                  * ((x10 % 16 * 10 + x11 % 16)
                                      + 65536
                                        * ((x12 % 16 * 10 + x13 % 16)
                                            + 65536 * ((x14 % 16 * 10 + x15 % 16) + 65536 * 0)))))))
stage_16_8 x0 x1 x2 x3 x4 x5 x6 x7 x8 x9 x10 x11 x12 x13 x14 x15 h = omega (
  arith,
  bit_and-kept 8 4
      ((false, x0)
        ∷ (true, x1)
        ∷ (false, x2)
        ∷ (true, x3)
        ∷ (false, x4)
        ∷ (true, x5)
        ∷ (false, x6)
        ∷ (true, x7)
        ∷ (false, x8)
        ∷ (true, x9)
        ∷ (false, x10)
        ∷ (true, x11)
        ∷ (false, x12)
        ∷ (true, x13)
        ∷ (false, x14)
        ∷ (true, x15)
        ∷ [])
      (omega arith) h,
  bit_and-kept 8 4
      ((true, x0)
        ∷ (false, x1)
        ∷ (true, x2)
        ∷ (false, x3)
        ∷ (true, x4)
        ∷ (false, x5)
        ∷ (true, x6)
        ∷ (false, x7)
        ∷ (true, x8)
        ∷ (false, x9)
        ∷ (true, x10)
        ∷ (false, x11)
        ∷ (true, x12)
        ∷ (false, x13)
        ∷ (true, x14)
        ∷ (false, x15)
        ∷ [])
      (omega arith) h,
)

pub stage_8_16 :
    (x0 x1 x2 x3 x4 x5 x6 x7 : ℕ)
    → All (λ x. x < 65536) (x0 ∷ x1 ∷ x2 ∷ x3 ∷ x4 ∷ x5 ∷ x6 ∷ x7 ∷ [])
    → bit_and
            (x0
              + 65536
                * (x1
                    + 65536
                      * (x2
                          + 65536
                            * (x3
                                + 65536
                                  * (x4
                                      + 65536 * (x5 + 65536 * (x6 + 65536 * (x7 + 65536 * 0))))))))
            0xff000000ff000000ff000000ff0000
          / 65536
        + bit_and
            (x0
              + 65536
                * (x1
                    + 65536
                      * (x2
                          + 65536
                            * (x3
                                + 65536
                                  * (x4
                                      + 65536 * (x5 + 65536 * (x6 + 65536 * (x7 + 65536 * 0))))))))
            0xff000000ff000000ff000000ff
          * 100
      ≡ (x0 % 256 * 100 + x1 % 256)
        + 4294967296
          * ((x2 % 256 * 100 + x3 % 256)
              + 4294967296
                * ((x4 % 256 * 100 + x5 % 256)
                    + 4294967296 * ((x6 % 256 * 100 + x7 % 256) + 4294967296 * 0)))
stage_8_16 x0 x1 x2 x3 x4 x5 x6 x7 h = omega (
  arith,
  bit_and-kept 16 8
      ((false, x0)
        ∷ (true, x1)
        ∷ (false, x2)
        ∷ (true, x3)
        ∷ (false, x4)
        ∷ (true, x5)
        ∷ (false, x6)
        ∷ (true, x7)
        ∷ [])
      (omega arith) h,
  bit_and-kept 16 8
      ((true, x0)
        ∷ (false, x1)
        ∷ (true, x2)
        ∷ (false, x3)
        ∷ (true, x4)
        ∷ (false, x5)
        ∷ (true, x6)
        ∷ (false, x7)
        ∷ [])
      (omega arith) h,
)

pub stage_4_32 :
    (x0 x1 x2 x3 : ℕ)
    → All (λ x. x < 4294967296) (x0 ∷ x1 ∷ x2 ∷ x3 ∷ [])
    → bit_and
            (x0 + 4294967296 * (x1 + 4294967296 * (x2 + 4294967296 * (x3 + 4294967296 * 0))))
            0xffff000000000000ffff00000000
          / 4294967296
        + bit_and
            (x0 + 4294967296 * (x1 + 4294967296 * (x2 + 4294967296 * (x3 + 4294967296 * 0))))
            0xffff000000000000ffff
          * 10000
      ≡ (x0 % 65536 * 10000 + x1 % 65536)
        + 18446744073709551616 * ((x2 % 65536 * 10000 + x3 % 65536) + 18446744073709551616 * 0)
stage_4_32 x0 x1 x2 x3 h = omega (
  arith,
  bit_and-kept 32 16 ((false, x0) ∷ (true, x1) ∷ (false, x2) ∷ (true, x3) ∷ []) (omega arith) h,
  bit_and-kept 32 16 ((true, x0) ∷ (false, x1) ∷ (true, x2) ∷ (false, x3) ∷ []) (omega arith) h,
)

pub stage_2_64 :
    (x0 x1 : ℕ)
    → All (λ x. x < 18446744073709551616) (x0 ∷ x1 ∷ [])
    → bit_and
            (x0 + 18446744073709551616 * (x1 + 18446744073709551616 * 0))
            0xffffffff0000000000000000
          / 18446744073709551616
        + bit_and (x0 + 18446744073709551616 * (x1 + 18446744073709551616 * 0)) 0xffffffff
          * 100000000
      ≡ (x0 % 4294967296 * 100000000 + x1 % 4294967296)
        + 340282366920938463463374607431768211456 * 0
stage_2_64 x0 x1 h = omega (
  arith,
  bit_and-kept 64 32 ((false, x0) ∷ (true, x1) ∷ []) (omega arith) h,
  bit_and-kept 64 32 ((true, x0) ∷ (false, x1) ∷ []) (omega arith) h,
)
