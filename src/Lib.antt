-- ===== src/Lib.antt =====
-- A model of dgswemv2, a discontinuous Galerkin solver for the shallow water equations, and
-- theorems about it.
--
-- The program reads a mesh in the ADCIRC format (or makes one by mesh_generators), classifies the
-- edges of its elements, integrates over elements and edges by quadrature rules, and advances the
-- state of each element by a time stepper. The modules follow these parts.
--
-- * Stepper (source/simulation/stepper): Schemes holds the constants of the Runge-Kutta schemes
--   as exact fractions, Coefficients is `ESSPRKStepper::InitializeCoefficients`, Explicit the
--   constructor, `operator++`, `save` and `load`, Update is `UpdateState` on the vector of stage
--   states, Implicit is `ImplicitStepper`, and Strang is `SecondStrangStepper` over two steppers
--   that are an interface. StageTimes, Consistency, Explicit/Runs, Update/Frame and Strang/Cycle
--   hold the theorems.
-- * Integration (source/integration): Tables holds the decimals of `GPData`, Dunavant and Gauss
--   are `Dunavant_2D` and `GaussLegendre_1D`, and their Exactness modules the theorems.
-- * BoundaryTypes (source/problem/SWE/swe_definitions.hpp, source/utilities/edge_types.hpp): the
--   codes of boundaries and of edges.
-- * Adcirc (source/preprocessor/ADCIRC_reader): the mesh data, and in Boundary the queries
--   `has_edge`, `get_ibtype` and `get_internal_node_pair` by which edges are classified and
--   levees are paired.
-- * Metadata (source/preprocessor/mesh_metadata.cpp): the constructor of `MeshMetaData` from an
--   ADCIRC mesh, with its dictionary of edges; Keys, Dictionary, Disjoint, Known, Faces,
--   Linking and Neighbors hold the theorems. Unordered maps are association lists, iterated in
--   the order of the list.
-- * QuadMesh (mesh_generators/quad_mesh_generator.cpp): Input reads the YAML document, Pattern
--   cuts the cells into triangles, Sides lists the nodes of the four boundaries, in the wrapping
--   arithmetic of `uint`.
-- * Partitioner (partitioner/csrmat.hpp, partitioner/partition.cpp): Csr is the class `CSRMat`,
--   Weights the graphs that are partitioned and `metis_part`, Layout the maps from elements to
--   partitions, ranks and places, Submeshes the assembly and the marking of split edges, and
--   Partition the function `partition`. METIS is a parameter; only where a theorem
--   says so, its parts are taken to be below the number it was asked for, as it documents.
--   Csr/Rows, Csr/Edges, Csr/Order, Weights/Edges, Weights/Sums, Layout/RoundRobin, Layout/Pairing,
--   Submeshes/Lookup, Submeshes/Assembly, Submeshes/Marking, Partition/Places and
--   Partition/Result hold the theorems. The names of the submeshes and the printed statistics
--   are left out.
-- * Swe (source/problem/SWE): Inputs holds the structs of the inputs with their defaults, Inputs/Read
--   the constructor from a YAML node, with warnings and exceptions, Inputs/Write `as_yaml_node`. The
--   YAML library is an interface, and Yaml/Writer states what it documents of nodes in memory.
--   Inputs/Parts, Inputs/Stable and Inputs/RoundTrip hold the theorems. A scalar where a key is
--   looked up, at which the library throws, is not modelled.
-- * Parameters (source/preprocessor/input_parameters.hpp): the structs of the input of a run, FileName
--   the operations on file names, Read the constructor from the loaded document, Write `write_to` up
--   to the printing of the document. The problem of a run is an interface, which Problems fills by
--   `YamlNodeWrapper`; the functions of <ctime> are parameters. Parts and RoundTrip hold the theorems.
--   An empty output path, whose last character the code reads, is taken as one without a slash.
-- * Prelude, Double, Outcome and Yaml are shared: lists and loops over native numbers, the
--   operations of double, results of code that throws, and what the readers call of the YAML
--   library. Examples runs the model on concrete inputs.
--
-- Values of `uint` are natural numbers, with their wrap-around at 2 ^ 32 written where the code
-- adds, multiplies or subtracts without a test; those of `uchar` wrap at 256. An edge's key is
-- computed on 64 bits from numbers of 32 bits. `double` is an interface of the operations used,
-- without laws, so the theorems about steppers hold for any rounding; constants are exact fractions, and the quadrature tables are decimals in fixed point (10 ^ -15 and
-- 10 ^ -31), whose rounding to double is not modelled. An exception is `none` or an error value,
-- and so is `exit`. Loops are structural recursion on the number of rounds or on a list; the loops of
-- the mesh generator with a stride of two take fuel, one round for each column or row, which is enough
-- where the counter does not wrap, and QuadMesh/Cover shows that they then end past their bound.
--
-- A read past the end of a vector, which is undefined in the code, gives 0 or the empty list.
--
-- Not modelled: the floating point kernels of the discretizations, the linear algebra, MPI and
-- HPX layers, the files of distributed interfaces, reading and writing of files, and output.
pub mod Prelude
pub mod Double
pub mod Stepper
pub mod Outcome
pub mod Yaml
pub mod BoundaryTypes
pub mod Adcirc
pub mod Metadata
pub mod QuadMesh
pub mod Partitioner
pub mod Swe
pub mod Parameters
pub mod Integration
pub mod Examples
