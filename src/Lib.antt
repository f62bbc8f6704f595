-- ===== src/Lib.antt =====
-- The C programs of two courses: a threaded web server, a chunk allocator, a merge sort,
-- longest common subsequences, and a sparse matrix that processes share.
--
-- Files and what they model:
--
-- Base (with its children)     lists, options, integers and stretches of arrays.
-- Queue, Queue/*               Operating Systems/Threaded Web Server/queue.c, the ring buffer that the
--                              request queue and the page cache are built on.
-- Pool, Pool/*                 Operating Systems/Memory Pool/mm_public.c, the chunk allocator that the
--                              packet programs use.
-- Sort, Sort/*                 Parallel Computing/HW2/serial_sort.c, the merge sort that each worker of
--                              mg_pthreads.c, mg_mpi.c and mg_openmp.c runs, and the merge of two
--                              workers' results.
-- ProdCon, ProdCon/*           Operating Systems/Threaded Web Server/queue.c: the producer/consumer
--                              queue, as turns of threads that interleave in any order.
-- Cache, Cache/*               Operating Systems/Threaded Web Server/cache.c: putting a page into the
--                              cache, which drops the oldest page of a full ring, and finding one.
-- Server, Server/*             Operating Systems/Threaded Web Server/server.c: the configuration, the
--                              rounds of workers and prefetchers over the cache, the dispatchers' numbers,
--                              and the threads that are created.
-- CString, CString/*           Parallel Computing/HW3/common.c: strrev, and the string functions it calls.
-- Lcs, Lcs/*                   Parallel Computing/HW3/common.c and lcs_serial.c: the grid of lengths and
--                              directions, filled by blocks or as a whole, and the way back through it.
-- Blocks, Blocks/*             Parallel Computing/HW3/common.c: the blocks of the grid that processes
--                              send to each other.
-- Double, Double/*             Parallel Computing/HW5/mpi_matrix.c: the division of doubles by which rows are
--                              shared out.
-- Matrix, Matrix/*             Parallel Computing/HW5/mpi_matrix.c: the stretch of a matrix that a process
--                              holds, the rows mapped into it, and its form on the wire.
-- Reading, Reading/*           the same file: matrix_read, from the lines of a file to the buffers that the
--                              first process sends to the others.
-- Schedule, Schedule/*         the same file: comm_schedule_t, and which rows a process asks for.
-- Exchange, Exchange/*         the same file: matrix_sync_mult_rows, all processes together, and that the rows
--                              asked for are those that matrix_read gave.
-- Product, Product/*           the same file: matrix_vector_mult.
--
-- State is passed explicitly: an operation takes the struct and returns it with its result. `none`
-- stands for undefined behaviour: an access outside an array, a division by zero, a signed overflow.
-- Where a function recurses on fuel, `none` is also fuel that has run out, and the theorems name the
-- fuel that is enough: two rounds for a page that is put into the cache, the size of the array
-- for the merge sort, more than the sum of the lengths for the way back through a grid.
-- The other loops are counted, and recurse on the rounds that are left.
--
-- What MPI, strtok_r and atoi do is a parameter of the matrices, and a theorem names what it relies on; the
-- file system and pthread_create are some of the web server. MPI_Allgather is given buffers that overlap, of
-- which MPI says nothing: the exchange is stated from the counts on. The doubles of a partition are
-- binary64, rounded to nearest; the twelve rounds of the search for a distance and the 52 for a power of
-- two are enough for 64 bits. malloc is a parameter where its result matters; that it gives what it is
-- asked for is then a hypothesis. Characters, bytes and pointers are numbers; ints are numbers with their
-- bound where a sum or a product is taken, and signed where their sign matters.
--
-- Not modelled: sockets, timing and printing; the calls of OpenMP, GTK and WebKit; the main programs but
-- for the web server's configuration; destroy functions, which only release memory.
pub mod Base
pub mod CString
pub mod Lcs
pub mod Blocks
pub mod Queue
pub mod Pool
pub mod ProdCon
pub mod Cache
pub mod Matrix
pub mod Product
pub mod Reading
pub mod Double
pub mod Exchange
pub mod Server
pub mod Schedule
pub mod Sort
