-- ===== src/Domain.antt =====
-- spy_der/domain: the values that the other components exchange. Identifiers, which the program
-- only compares, are numbers; a datetime is its number of microseconds since `datetime.min`, and a
-- timedelta is a signed number of microseconds. Messages are values with a constructor for each
-- text of the program, without the formatted figures.
pub mod Enums
pub mod Market
pub mod Strategy
pub mod Execution
