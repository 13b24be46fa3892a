-- ===== src/Adcirc.antt =====
-- AdcircFormat (source/preprocessor/ADCIRC_reader/adcirc_format.hpp): the contents of an ADCIRC grid
-- file. A hash map is the list of its entries in the order of its iteration; a `std::map` is the
-- list of its entries in the order of its keys.
pub mod Boundary
use dgswemv.Prelude.{ℕ, List}
use Prim.Native.String.{String}

pub record Coordinates (D : Type 0) : Type 0 where
  pub x : D
  pub y : D
  pub z : D

-- `std::array<uint, 4>`: a type code and three nodes.
pub record ElementNodes : Type 0 where
  pub kind : ℕ
  pub n1 : ℕ
  pub n2 : ℕ
  pub n3 : ℕ

-- The boundary data of the file.
pub record Boundaries (D : Type 0) : Type 0 where
  pub nope : ℕ
  pub neta : ℕ
  pub nbdv : List (List ℕ)
  pub nbou : ℕ
  pub nvel : ℕ
  pub ibtype : List ℕ
  pub nbvv : List (List ℕ)
  pub ibconn : List (ℕ × List ℕ)
  pub barinth : List (ℕ × List D)
  pub barincfsb : List (ℕ × List D)
  pub barincfsp : List (ℕ × List D)
  pub ngen : ℕ
  pub nngn : ℕ
  pub nbgn : List (List ℕ)

pub record AdcircFormat (D : Type 0) : Type 0 where
  pub name : String
  pub nodes : List (ℕ × Coordinates D)
  pub elements : List (ℕ × ElementNodes)
  pub boundaries : Boundaries D
